-- ===== src/Fusion.antt =====
-- Reciprocal rank fusion of ranked results: api/bigrag/services/retrieval/fusion.py.
pub mod Entries
pub mod Ranked
mod Scenarios
use bigrag.Base.{
  ℕ, zero, suc, ◌+◌, String, Bool, true, false, List, [], ◌∷◌, map, text_eq, if◌then◌else◌, length,
}
use bigrag.Base.Json.{Fields}

-- The floats: 0.0, +, 1.0 / n, m / n, round(a / b, 6) and <.
pub record Scores (F : Type 0) : Type 0 where
  pub nought : F
  pub one : F
  pub add : F → F → F
  pub reciprocal : ℕ → F
  pub quotient : ℕ → ℕ → F
  pub rounded_ratio : F → F → F
  pub lt : F → F → Bool

pub record Item (F : Type 0) : Type 0 where
  pub id : String
  pub score : F
  pub fields : Fields

-- The dictionaries `scores` and `items` have the same keys in the same order: one list of entries.
pub record Entry (F : Type 0) : Type 0 where
  pub id : String
  pub total : F
  pub item : Item F

module _ {F : Type 0} (scores : Scores F) where
  -- One item at a rank: its score grows, or it is new.
  unfoldable pub add_item : F → Item F → List (Entry F) → List (Entry F)
  add_item share item [] =
      record { id = item.id; total = scores.add scores.nought share; item = item } ∷ []
  add_item share item (e ∷ entries) =
      let rest = add_item share item entries in
      if text_eq e.id item.id
      then record e { total = scores.add e.total share } ∷ entries
      else e ∷ rest

  unfoldable pub add_ranked : ℕ → ℕ → List (Item F) → List (Entry F) → List (Entry F)
  add_ranked k rank [] entries = entries
  add_ranked k rank (item ∷ items) entries =
      add_ranked k (suc rank) items (add_item (scores.reciprocal (k + rank + 1)) item entries)

  unfoldable pub add_lists : ℕ → List (List (Item F)) → List (Entry F) → List (Entry F)
  add_lists k [] entries = entries
  add_lists k (items ∷ lists) entries = add_lists k lists (add_ranked k 0 items entries)

  -- `sorted(…, reverse=True)` keeps the order of equal scores.
  unfoldable pub place : Entry F → List (Entry F) → List (Entry F)
  place e [] = e ∷ []
  place e (f ∷ entries) =
      let rest = place e entries in if scores.lt e.total f.total then f ∷ rest else e ∷ f ∷ entries

  unfoldable pub sorted_entries : List (Entry F) → List (Entry F)
  sorted_entries [] = []
  sorted_entries (e ∷ entries) = place e (sorted_entries entries)

  unfoldable pub ranked : ℕ → List (List (Item F)) → List (Entry F)
  ranked k lists = sorted_entries (add_lists k lists [])

  abbrev pub max_score : ℕ → List (List (Item F)) → F
  max_score k [] = scores.one
  max_score k (items ∷ lists) = scores.quotient (suc (length lists)) (k + 1)

  abbrev pub scored : F → Entry F → Item F
  scored most e = record (e.item) { score = scores.rounded_ratio e.total most }

  unfoldable pub reciprocal_rank_fusion : ℕ → List (List (Item F)) → List (Item F)
  reciprocal_rank_fusion k lists = map (scored (max_score k lists)) (ranked k lists)
