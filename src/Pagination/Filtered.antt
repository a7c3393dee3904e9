-- ===== src/Pagination/Filtered.antt =====
-- The condition of `apply_cursor` cuts an ordered list behind the cursor's row.
use bigrag.Base.{
  ◌<◌, ◌⊎◌, inl, inr, ◌≡◌, refl, ap, true, false, List, [], ◌∷◌, ◌++◌, All, arith, some,
}
use bigrag.Pagination.{Key, Direction, asc, desc, is_behind, apply_cursor}

is_behind_self : (d : Direction) (a : Key) → is_behind d a a ≡ false
unfolding is_behind
is_behind_self desc a = ground arith
is_behind_self asc a = ground arith

-- The row of key `a` stands behind the one of key `c`, by its instant and then its number.
abbrev pub IsAfter : Direction → Key → Key → Type 0
IsAfter desc c a = (a.0.instant < c.0.instant) ⊎ ((a.0.instant ≡ c.0.instant) × (a.1 < c.1))
IsAfter asc c a = (c.0.instant < a.0.instant) ⊎ ((a.0.instant ≡ c.0.instant) × (c.1 < a.1))

is_behind-IsAfter : (d : Direction) (c a : Key) → IsAfter d c a → is_behind d c a ≡ true
unfolding is_behind
is_behind-IsAfter desc c a (inl h) = ground (arith, h)
is_behind-IsAfter desc c a (inr h) = ground (arith, h.0, h.1)
is_behind-IsAfter asc c a (inl h) = ground (arith, h)
is_behind-IsAfter asc c a (inr h) = ground (arith, h.0, h.1)

is_behind-back : (d : Direction) (c a : Key) → IsAfter d c a → is_behind d a c ≡ false
unfolding is_behind
is_behind-back desc c a (inl h) = ground (arith, h)
is_behind-back desc c a (inr h) = ground (arith, h.0, h.1)
is_behind-back asc c a (inl h) = ground (arith, h)
is_behind-back asc c a (inr h) = ground (arith, h.0, h.1)

module _ {ℓ} {Row : Type ℓ} (key : Row → Key) (d : Direction) where
  abbrev pub Behind : Row → Row → Type 0
  Behind a b = IsAfter d (key a) (key b)

  -- Each row comes behind those in front of it.
  abbrev pub IsOrdered : List Row → Type 0
  IsOrdered [] = Unit
  IsOrdered (r ∷ rows) = All (Behind r) rows × IsOrdered rows

  -- The rows in front and the row itself fall away.
  apply-All :
      (a : Row) (rows : List Row)
      → All (Behind a) rows
      → apply_cursor key d (some (key a)) rows ≡ rows
  unfolding apply_cursor
  apply-All a [] h = refl
  apply-All a (b ∷ rows) h =
      rw (is_behind-IsAfter d (key a) (key b) h.0) (ap (◌∷◌ b) (apply-All a rows h.1))

  front-Behind :
      (x a : Row) (front rest : List Row) → All (Behind x) (front ++ (a ∷ rest)) → Behind x a
  front-Behind x a [] rest h = h.0
  front-Behind x a (b ∷ front) rest h = front-Behind x a front rest h.1

  pub apply_cursor-cut :
      (front : List Row) (a : Row) (rest : List Row)
      → IsOrdered (front ++ (a ∷ rest))
      → apply_cursor key d (some (key a)) (front ++ (a ∷ rest)) ≡ rest
  unfolding apply_cursor
  apply_cursor-cut [] a rest h = rw (is_behind_self d (key a)) (apply-All a rest h.0)
  apply_cursor-cut (x ∷ front) a rest h =
      rw (is_behind-back d (key x) (key a) (front-Behind x a front rest h.0))
        (apply_cursor-cut front a rest h.1)
