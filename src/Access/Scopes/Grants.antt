-- ===== src/Access/Scopes/Grants.antt =====
-- Which grants satisfy a required scope.
use bigrag.Base.{String, ◌≡◌, ◌≢◌, ◌↔◌, ◌⊎◌, inl, inr, refl, ◌∙◌, true, false, eq_iff, arith}
use bigrag.Base.Text.{is_empty, has_char, before, after}
use bigrag.Base.Text.Partition.{joined, joined-partition, before-joined, after-joined}
use bigrag.Access.Scopes.{scope_matches}

-- The four grants of `res:act`.
abbrev pub Grants : String → String → String → Type 0
Grants res act g =
    (g ≡ joined "*" "*") ⊎ (g ≡ joined "*" act) ⊎ (g ≡ joined res "*") ⊎ (g ≡ joined res act)

nonempty_of : (s : String) → s ≢ "" → is_empty s ≡ false
nonempty_of String.[] h = absurd (h refl)
nonempty_of (String.◌∷◌ c s) h = refl

-- What the code tests, in terms of the parts.
abbrev Parts : String → String → String → Type 0
Parts res act g =
    (is_empty (after b':' g) ≡ false)
    × ((before b':' g ≡ "*") ⊎ (before b':' g ≡ res))
    × ((after b':' g ≡ "*") ⊎ (after b':' g ≡ act))

Parts-of_match :
    (res act g : String)
    → has_char b':' res ≡ false
    → scope_matches g (joined res act) ≡ true
    → Parts res act g
unfolding scope_matches
Parts-of_match res act g h m = ground (
  arith,
  before-joined res act h,
  after-joined res act h,
  eq_iff (before b':' g) "*",
  eq_iff (before b':' g) res,
  eq_iff (after b':' g) "*",
  eq_iff (after b':' g) act,
)

Grants-of_Parts : (res act g : String) → Parts res act g → Grants res act g
Grants-of_Parts res act g (full, inl r, inl a) = inl (joined-partition g full ∙ cc (r, a))
Grants-of_Parts res act g (full, inl r, inr a) = inr (inl (joined-partition g full ∙ cc (r, a)))
Grants-of_Parts res act g (full, inr r, inl a) =
    inr (inr (inl (joined-partition g full ∙ cc (r, a))))
Grants-of_Parts res act g (full, inr r, inr a) =
    inr (inr (inr (joined-partition g full ∙ cc (r, a))))

match-of_Parts :
    (res act a b : String)
    → has_char b':' res ≡ false
    → has_char b':' a ≡ false
    → is_empty a ≡ false
    → is_empty b ≡ false
    → (a ≡ "*") ⊎ (a ≡ res)
    → (b ≡ "*") ⊎ (b ≡ act)
    → scope_matches (joined a b) (joined res act) ≡ true
unfolding scope_matches
match-of_Parts res act a b h ha ea eb pa pb = ground (
  arith,
  before-joined res act h,
  after-joined res act h,
  before-joined a b ha,
  after-joined a b ha,
  eq_iff a "*",
  eq_iff a res,
  eq_iff b "*",
  eq_iff b act,
)

star : has_char b':' "*" ≡ false
unfolding has_char
star = refl

-- A grant satisfies the scope `res:act` exactly when it is `*:*`, `*:act`, `res:*` or `res:act`.
-- The resource has no colon in it, and neither part is empty.
pub scope_matches_iff :
    (res act g : String)
    → has_char b':' res ≡ false
    → res ≢ ""
    → act ≢ ""
    → (scope_matches g (joined res act) ≡ true) ↔ Grants res act g
scope_matches_iff res act g h r a =
    (λ m. Grants-of_Parts res act g (Parts-of_match res act g h m), matched)
  where
    at :
        (x y : String)
        → g ≡ joined x y
        → has_char b':' x ≡ false
        → is_empty x ≡ false
        → is_empty y ≡ false
        → (x ≡ "*") ⊎ (x ≡ res)
        → (y ≡ "*") ⊎ (y ≡ act)
        → scope_matches g (joined res act) ≡ true
    at x y e hx ex ey px py = rw e (match-of_Parts res act x y h hx ex ey px py)

    re : is_empty res ≡ false
    re = nonempty_of res r

    ae : is_empty act ≡ false
    ae = nonempty_of act a

    matched : Grants res act g → scope_matches g (joined res act) ≡ true
    matched (inl e) = at "*" "*" e star refl refl (inl refl) (inl refl)
    matched (inr (inl e)) = at "*" act e star refl ae (inl refl) (inr refl)
    matched (inr (inr (inl e))) = at res "*" e h re refl (inr refl) (inl refl)
    matched (inr (inr (inr e))) = at res act e h re ae (inr refl) (inr refl)

pub scope_matches-Grants :
    (res act g : String)
    → has_char b':' res ≡ false
    → scope_matches g (joined res act) ≡ true
    → Grants res act g
scope_matches-Grants res act g h m = Grants-of_Parts res act g (Parts-of_match res act g h m)
