-- ===== src/Access/Scopes/Segments.antt =====
-- Patterns with parameters match paths segment by segment.
use bigrag.Base.{
  String, ◌≡◌, ◌↔◌, refl, true, List, [], ◌∷◌, length, ap, suc, eq_iff, arith, Bool-cases, inl, inr,
}
use bigrag.Base.Text.{has_char, split, rstrip}
use bigrag.Access.Scopes.{is_parameter, segments_match, path_matches}

-- A path's segments fit a pattern's: as many, each equal or under a parameter.
pub data Fits : List String → List String → Type 0 where
  done : Fits [] []
  parameter :
      (p a : String) (ps as' : List String)
      → is_parameter p ≡ true
      → Fits ps as'
      → Fits (p ∷ ps) (a ∷ as')
  literal : (p a : String) (ps as' : List String) → p ≡ a → Fits ps as' → Fits (p ∷ ps) (a ∷ as')

Fits-length : {ps as' : List String} → Fits ps as' → length as' ≡ length ps
Fits-length done = refl
Fits-length (parameter p a ps as' h f) = ap suc (Fits-length f)
Fits-length (literal p a ps as' e f) = ap suc (Fits-length f)

Fits-segments_match : {ps as' : List String} → Fits ps as' → segments_match ps as' ≡ true
unfolding segments_match
Fits-segments_match done = refl
Fits-segments_match (parameter p a ps as' h f) = ground (arith, Fits-segments_match f)
Fits-segments_match (literal p a ps as' e f) = ground (arith, Fits-segments_match f, eq_iff p a)

segments_match-Fits :
    (ps as' : List String) → length as' ≡ length ps → segments_match ps as' ≡ true → Fits ps as'
unfolding segments_match
segments_match-Fits [] [] e h = done
segments_match-Fits [] (a ∷ as') e h = absurd (omega arith)
segments_match-Fits (p ∷ ps) [] e h = absurd (omega arith)
segments_match-Fits (p ∷ ps) (a ∷ as') e h = elim (Bool-cases (is_parameter p)) [
  | inl y ↦ parameter p a ps as' y (segments_match-Fits ps as' (omega arith) (ground arith))
  | inr n ↦
      literal p a ps as' (ground (arith, eq_iff p a))
        (segments_match-Fits ps as' (omega arith) (ground (arith, eq_iff p a)))
]

-- A path matches a pattern with parameters exactly when, up to slashes at the end, its segments
-- fit the pattern's one by one: no prefix of a longer path matches.
pub path_matches-Fits :
    (path pattern_text : String)
    → has_char b'{' pattern_text ≡ true
    → (path_matches path pattern_text ≡ true)
      ↔ Fits (split b'/' (rstrip b'/' pattern_text)) (split b'/' (rstrip b'/' path))
unfolding path_matches
path_matches-Fits path pattern_text h = (
  λ m. segments_match-Fits _ _ (ground arith) (ground arith),
  λ f. ground (arith, Fits-length f, Fits-segments_match f),
)
