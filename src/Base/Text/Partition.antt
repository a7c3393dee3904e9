-- ===== src/Base/Text/Partition.antt =====
-- `partition` at a colon takes a text apart, and puts a joined text back.
use Prim.Native.Char.{Char, code}
use Prim.Native.String.{◌++◌}
use Prim.Native.String.append
use text.Mathlib.TextEquality.{Char-path}
use bigrag.Base.{String, ◌≡◌, sym, ap, ◌∙◌, false, inl, inr, Bool-cases, ◌==◌, ==_iff, arith}
use bigrag.Base.Text.{is_empty, has_char, before, after}

abbrev pub colon : Char
colon = ":"

-- `f"{a}:{b}"`
abbrev pub joined : String → String → String
joined a b = a ++ String.◌∷◌ colon b

-- A text whose part behind the colon is not empty is its two parts, joined.
pub joined-partition :
    (s : String) → is_empty (after b':' s) ≡ false → s ≡ joined (before b':' s) (after b':' s)
unfolding before after
joined-partition String.[] h = cc
joined-partition (String.◌∷◌ c s) h = elim (Bool-cases (code c == b':')) [
  | inl e ↦ rw e (rw (Char-path c colon ((==_iff _ _).0 e)) (sym (append.nil _)))
  | inr e ↦ rw e (ap (String.◌∷◌ c) (joined-partition s (rw e at h)) ∙ sym (append.cons _ _ _))
]

-- The parts of a text joined at its first colon.
pub before-joined : (a b : String) → has_char b':' a ≡ false → before b':' (joined a b) ≡ a
unfolding before has_char
before-joined String.[] b h = rw (append.nil (String.◌∷◌ colon b))
before-joined (String.◌∷◌ c a) b h = elim (Bool-cases (code c == b':')) [
  | inl e ↦ absurd (ground arith)
  | inr e ↦ rw append.cons (rw e (ap (String.◌∷◌ c) (before-joined a b (ground arith))))
]

pub after-joined : (a b : String) → has_char b':' a ≡ false → after b':' (joined a b) ≡ b
unfolding after has_char
after-joined String.[] b h = rw (append.nil (String.◌∷◌ colon b))
after-joined (String.◌∷◌ c a) b h = elim (Bool-cases (code c == b':')) [
  | inl e ↦ absurd (ground arith)
  | inr e ↦ rw append.cons (rw e (after-joined a b (ground arith)))
]
