-- ===== src/Pagination/Cuts.antt =====
-- Lists of rows cut at a place, for the pages of Pagination/Walk.
use bigrag.Base.{
  ℕ, zero, suc, ◌≤◌, ◌<◌, ◌≡◌, refl, ap, List, [], ◌∷◌, ◌++◌, length, take, All, arith,
}

module _ {ℓ} {Row : Type ℓ} where
  -- The place of the `k`-th row.
  pub record Place (k : ℕ) (rows : List Row) : Type ℓ where
    pub front : List Row
    pub row : Row
    pub tail : List Row
    pub is_whole : rows ≡ front ++ (row ∷ tail)
    pub is_page : take (suc k) rows ≡ front ++ (row ∷ [])
    pub is_shorter : length tail < length rows

  pub cut_at : (k : ℕ) (rows : List Row) → k < length rows → Place k rows
  cut_at k [] h = absurd (omega (arith, h))
  cut_at zero (r ∷ rows) h = record {
    front = [];
    row = r;
    tail = rows;
    is_whole = refl;
    is_page = refl;
    is_shorter = omega arith;
  }
  cut_at (suc k) (r ∷ rows) h =
      let c = cut_at k rows (omega (arith, h)) in
      record {
        front = r ∷ c.front;
        row = c.row;
        tail = c.tail;
        is_whole = ap (◌∷◌ r) c.is_whole;
        is_page = ap (◌∷◌ r) c.is_page;
        is_shorter = omega (arith, c.is_shorter);
      }

  pub take-all : (k : ℕ) (rows : List Row) → length rows ≤ k → take k rows ≡ rows
  take-all zero [] h = refl
  take-all zero (r ∷ rows) h = absurd (omega (arith, h))
  take-all (suc k) [] h = refl
  take-all (suc k) (r ∷ rows) h = ap (◌∷◌ r) (take-all k rows (omega (arith, h)))

  pub take-take : (k : ℕ) (rows : List Row) → take k (take (suc k) rows) ≡ take k rows
  take-take zero rows = refl
  take-take (suc k) [] = refl
  take-take (suc k) (r ∷ rows) = ap (◌∷◌ r) (take-take k rows)

  pub length-take-long : (k : ℕ) (rows : List Row) → k ≤ length rows → length (take k rows) ≡ k
  length-take-long zero rows h = refl
  length-take-long (suc k) [] h = absurd (omega (arith, h))
  length-take-long (suc k) (r ∷ rows) h = ap suc (length-take-long k rows (omega (arith, h)))

  pub All-at :
      (P : Row → Type 0) (front : List Row) (a : Row) (rest : List Row)
      → All P (front ++ (a ∷ rest))
      → P a
  All-at P [] a rest h = h.0
  All-at P (x ∷ front) a rest h = All-at P front a rest h.1
