-- ===== src/Fusion/Ranked.antt =====
-- What the fusion returns: every item that was listed, once, by descending score.
use bigrag.Base.{
  ℕ, ◌≡◌, inl, inr, refl, ap, ◌∙◌, Bool, true, false, ◌||◌, String, List, [], ◌∷◌, map, text_eq,
  eq_iff, All, Bool-cases, arith,
}
use bigrag.Fusion.{
  Scores, Item, Entry, add_lists, place, sorted_entries, ranked, scored, max_score,
  reciprocal_rank_fusion,
}
use bigrag.Fusion.Entries.{
  has_item, is_listed, has_entry, IsOther, IsDistinct, IsItself, IsDistinct-add_lists,
  has_entry-add_lists, IsItself-add_lists,
}

or_false : (b : Bool) → (b || false) ≡ b
or_false b = ground arith

module _ {F : Type 0} where
  module _ (scores : Scores F) where
    -- No entry is below a later one.
    abbrev pub IsDescending : List (Entry F) → Type 0
    IsDescending [] = Unit
    IsDescending (e ∷ entries) =
        All (λ f. scores.lt e.total f.total ≡ false) entries × IsDescending entries

    -- < is false one way where it is true the other way, and not-below is transitive.
    pub record IsOrder : Type 0 where
      pub one_way : (a b : F) → scores.lt a b ≡ true → scores.lt b a ≡ false
      pub chain :
          (a b c : F) → scores.lt a b ≡ false → scores.lt b c ≡ false → scores.lt a c ≡ false

    All-place :
        (P : Entry F → Type 0) (e : Entry F) (entries : List (Entry F))
        → P e
        → All P entries
        → All P (place scores e entries)
    unfolding place
    All-place P e [] p h = (p, tt)
    All-place P e (f ∷ entries) p h = elim (Bool-cases (scores.lt e.total f.total)) [
      | inl y ↦ rw y (h.0, All-place P e entries p h.1)
      | inr n ↦ rw n (p, h)
    ]

    All-below :
        (o : IsOrder) (e f : Entry F) (entries : List (Entry F))
        → scores.lt e.total f.total ≡ false
        → All (λ g. scores.lt f.total g.total ≡ false) entries
        → All (λ g. scores.lt e.total g.total ≡ false) entries
    All-below o e f [] n h = tt
    All-below o e f (g ∷ entries) n h =
        (o.chain e.total f.total g.total n h.0, All-below o e f entries n h.1)

    IsDescending-place :
        (o : IsOrder) (e : Entry F) (entries : List (Entry F))
        → IsDescending entries
        → IsDescending (place scores e entries)
    unfolding place
    IsDescending-place o e [] h = (tt, tt)
    IsDescending-place o e (f ∷ entries) h = elim (Bool-cases (scores.lt e.total f.total)) [
      | inl y ↦ rw y (
        All-place _ e entries (o.one_way e.total f.total y) h.0,
        IsDescending-place o e entries h.1,
      )
      | inr n ↦ rw n ((n, All-below o e f entries n h.0), h)
    ]

    IsDescending-sorted :
        (o : IsOrder) (entries : List (Entry F)) → IsDescending (sorted_entries scores entries)
    unfolding sorted_entries
    IsDescending-sorted o [] = tt
    IsDescending-sorted o (e ∷ entries) =
        IsDescending-place o e (sorted_entries scores entries) (IsDescending-sorted o entries)

    All-sorted :
        (P : Entry F → Type 0) (entries : List (Entry F))
        → All P entries
        → All P (sorted_entries scores entries)
    unfolding sorted_entries
    All-sorted P [] h = tt
    All-sorted P (e ∷ entries) h =
        All-place P e (sorted_entries scores entries) h.0 (All-sorted P entries h.1)

    flip : (e f : Entry F) → IsOther e f → IsOther f e
    flip e f h = ground (arith, h, eq_iff e.id f.id, eq_iff f.id e.id)

    IsDistinct-place :
        (e : Entry F) (entries : List (Entry F))
        → All (IsOther e) entries
        → IsDistinct entries
        → IsDistinct (place scores e entries)
    unfolding place
    IsDistinct-place e [] g h = (tt, tt)
    IsDistinct-place e (f ∷ entries) g h = elim (Bool-cases (scores.lt e.total f.total)) [
      | inl y ↦
          rw y
            (All-place (IsOther f) e entries (flip e f g.0) h.0, IsDistinct-place e entries g.1 h.1)
      | inr n ↦ rw n (g, h)
    ]

    IsDistinct-sorted :
        (entries : List (Entry F)) → IsDistinct entries → IsDistinct (sorted_entries scores entries)
    unfolding sorted_entries
    IsDistinct-sorted [] h = tt
    IsDistinct-sorted (e ∷ entries) h =
        IsDistinct-place e (sorted_entries scores entries) (All-sorted (IsOther e) entries h.0)
          (IsDistinct-sorted entries h.1)

    has_entry-place :
        (id : String) (e : Entry F) (entries : List (Entry F))
        → has_entry id (place scores e entries) ≡ (text_eq e.id id || has_entry id entries)
    unfolding place
    has_entry-place id e [] = ground arith
    has_entry-place id e (f ∷ entries) = ground (arith, has_entry-place id e entries)

    has_entry-sorted :
        (id : String) (entries : List (Entry F))
        → has_entry id (sorted_entries scores entries) ≡ has_entry id entries
    unfolding sorted_entries
    has_entry-sorted id [] = refl
    has_entry-sorted id (e ∷ entries) =
        ground
          (arith, has_entry-place id e (sorted_entries scores entries), has_entry-sorted id entries)

    has_item-scored :
        (id : String) (most : F) (entries : List (Entry F))
        → All IsItself entries
        → has_item id (map (scored scores most) entries) ≡ has_entry id entries
    has_item-scored id most [] h = refl
    has_item-scored id most (e ∷ entries) h =
        rw (ap (λ i. text_eq i id) h.0) (ground (arith, has_item-scored id most entries h.1))

    has_item-fusion :
        (k : ℕ) (lists : List (List (Item F))) (id : String)
        → has_item id (reciprocal_rank_fusion scores k lists) ≡ is_listed id lists
    unfolding reciprocal_rank_fusion ranked
    has_item-fusion k lists id =
        let entries = add_lists scores k lists [] in
        has_item-scored id (max_score scores k lists) (sorted_entries scores entries)
          (All-sorted IsItself entries (IsItself-add_lists scores k lists [] tt))
        ∙ has_entry-sorted id entries
        ∙ has_entry-add_lists scores id k lists []
        ∙ or_false (is_listed id lists)

    -- If < of the scores is false one way where it is true the other way, and not-below is transitive,
    -- then the fused entries are in descending order of their totals, no two have one id, and the result
    -- has an item with an id exactly if one of the ranked lists has.
    pub reciprocal_rank_fusion-ranked :
        (k : ℕ) (lists : List (List (Item F))) (id : String)
        → IsOrder
        → IsDescending (ranked scores k lists)
          × IsDistinct (ranked scores k lists)
          × (has_item id (reciprocal_rank_fusion scores k lists) ≡ is_listed id lists)
    unfolding ranked
    reciprocal_rank_fusion-ranked k lists id o =
        let entries = add_lists scores k lists [] in
        (
          IsDescending-sorted o entries,
          IsDistinct-sorted entries (IsDistinct-add_lists scores k lists [] tt),
          has_item-fusion k lists id,
        )
