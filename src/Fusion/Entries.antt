-- ===== src/Fusion/Entries.antt =====
-- The entries that the fusion collects, before they are sorted.
use bigrag.Base.{
  ℕ, suc, ◌+◌, ◌≡◌, inl, inr, refl, Bool, false, ◌||◌, String, List, [], ◌∷◌, text_eq, eq_iff,
  any_of, All, Bool-cases, arith,
}
use bigrag.Fusion.{Scores, Item, Entry, add_item, add_ranked, add_lists}

module _ {F : Type 0} where
  abbrev pub has_item : String → List (Item F) → Bool
  has_item id items = any_of (λ i. text_eq i.id id) items

  -- Some list has an item with this id.
  abbrev pub is_listed : String → List (List (Item F)) → Bool
  is_listed id [] = false
  is_listed id (items ∷ lists) = has_item id items || is_listed id lists

  abbrev pub has_entry : String → List (Entry F) → Bool
  has_entry id entries = any_of (λ e. text_eq e.id id) entries

  -- No two entries have one id.
  abbrev pub IsOther : Entry F → Entry F → Type 0
  IsOther e f = text_eq e.id f.id ≡ false

  abbrev pub IsDistinct : List (Entry F) → Type 0
  IsDistinct [] = Unit
  IsDistinct (e ∷ entries) = All (IsOther e) entries × IsDistinct entries

  -- The entry's item has its id.
  abbrev pub IsItself : Entry F → Type 0
  IsItself e = e.item.id ≡ e.id

  module _ (scores : Scores F) where
    All-add_item :
        (P : String → Type 0) (share : F) (item : Item F) (entries : List (Entry F))
        → P item.id
        → All (λ e. P e.id) entries
        → All (λ e. P e.id) (add_item scores share item entries)
    unfolding add_item
    All-add_item P share item [] p h = (p, tt)
    All-add_item P share item (e ∷ entries) p h = elim (Bool-cases (text_eq e.id item.id)) [
      | inl y ↦ rw y h
      | inr n ↦ rw n (h.0, All-add_item P share item entries p h.1)
    ]

    IsDistinct-add_item :
        (share : F) (item : Item F) (entries : List (Entry F))
        → IsDistinct entries
        → IsDistinct (add_item scores share item entries)
    unfolding add_item
    IsDistinct-add_item share item [] h = (tt, tt)
    IsDistinct-add_item share item (e ∷ entries) h = elim (Bool-cases (text_eq e.id item.id)) [
      | inl y ↦ rw y h
      | inr n ↦ rw n (
        All-add_item (λ id. text_eq e.id id ≡ false) share item entries n h.0,
        IsDistinct-add_item share item entries h.1,
      )
    ]

    IsDistinct-add_ranked :
        (k rank : ℕ) (items : List (Item F)) (entries : List (Entry F))
        → IsDistinct entries
        → IsDistinct (add_ranked scores k rank items entries)
    unfolding add_ranked
    IsDistinct-add_ranked k rank [] entries h = h
    IsDistinct-add_ranked k rank (item ∷ items) entries h =
        IsDistinct-add_ranked k (suc rank) items _ (IsDistinct-add_item _ item entries h)

    pub IsDistinct-add_lists :
        (k : ℕ) (lists : List (List (Item F))) (entries : List (Entry F))
        → IsDistinct entries
        → IsDistinct (add_lists scores k lists entries)
    unfolding add_lists
    IsDistinct-add_lists k [] entries h = h
    IsDistinct-add_lists k (items ∷ lists) entries h =
        IsDistinct-add_lists k lists _ (IsDistinct-add_ranked k 0 items entries h)

    has_entry-add_item :
        (id : String) (share : F) (item : Item F) (entries : List (Entry F))
        → has_entry id (add_item scores share item entries)
          ≡ (text_eq item.id id || has_entry id entries)
    unfolding add_item
    has_entry-add_item id share item [] = ground arith
    has_entry-add_item id share item (e ∷ entries) = ground (
      arith,
      eq_iff e.id item.id,
      eq_iff item.id id,
      eq_iff e.id id,
      has_entry-add_item id share item entries,
    )

    has_entry-add_ranked :
        (id : String) (k rank : ℕ) (items : List (Item F)) (entries : List (Entry F))
        → has_entry id (add_ranked scores k rank items entries)
          ≡ (has_item id items || has_entry id entries)
    unfolding add_ranked
    has_entry-add_ranked id k rank [] entries = refl
    has_entry-add_ranked id k rank (item ∷ items) entries =
        let share = scores.reciprocal (k + rank + 1) in
        ground (
          arith,
          has_entry-add_ranked id k (suc rank) items (add_item scores share item entries),
          has_entry-add_item id share item entries,
        )

    pub has_entry-add_lists :
        (id : String) (k : ℕ) (lists : List (List (Item F))) (entries : List (Entry F))
        → has_entry id (add_lists scores k lists entries)
          ≡ (is_listed id lists || has_entry id entries)
    unfolding add_lists
    has_entry-add_lists id k [] entries = refl
    has_entry-add_lists id k (items ∷ lists) entries = ground (
      arith,
      has_entry-add_lists id k lists (add_ranked scores k 0 items entries),
      has_entry-add_ranked id k 0 items entries,
    )

    IsItself-add_item :
        (share : F) (item : Item F) (entries : List (Entry F))
        → All IsItself entries
        → All IsItself (add_item scores share item entries)
    unfolding add_item
    IsItself-add_item share item [] h = (refl, tt)
    IsItself-add_item share item (e ∷ entries) h = elim (Bool-cases (text_eq e.id item.id)) [
      | inl y ↦ rw y h
      | inr n ↦ rw n (h.0, IsItself-add_item share item entries h.1)
    ]

    IsItself-add_ranked :
        (k rank : ℕ) (items : List (Item F)) (entries : List (Entry F))
        → All IsItself entries
        → All IsItself (add_ranked scores k rank items entries)
    unfolding add_ranked
    IsItself-add_ranked k rank [] entries h = h
    IsItself-add_ranked k rank (item ∷ items) entries h =
        IsItself-add_ranked k (suc rank) items _ (IsItself-add_item _ item entries h)

    pub IsItself-add_lists :
        (k : ℕ) (lists : List (List (Item F))) (entries : List (Entry F))
        → All IsItself entries
        → All IsItself (add_lists scores k lists entries)
    unfolding add_lists
    IsItself-add_lists k [] entries h = h
    IsItself-add_lists k (items ∷ lists) entries h =
        IsItself-add_lists k lists _ (IsItself-add_ranked k 0 items entries h)
