-- ===== src/Connectors/Prune/Kept.antt =====
-- What prune_stale leaves alone: the manifests of the files that the job listed, and everything
-- where too many would go.
use bigrag.Base.{
  ℕ, zero, suc, ◌*◌, ◌≤◌, ◌<◌, ◌≡◌, inl, inr, refl, sym, ap, ◌∙◌, subst, Bool, true, false, not,
  List, [], ◌∷◌, length, take, keep, All, ltb, ◌==◌, ◌||◌, eq_iff, Bool-cases, arith,
}
use bigrag.Base.Result.{Result, ok, err}
use bigrag.Base.Exec.{raise}
use bigrag.Base.Exec.Keeps.{Keeps, Keeps-bind, Keeps-pure, Keeps-gets, Keeps-raise, Keeps-if}
use bigrag.Base.Exec.Triple.{Post}
use bigrag.Connectors.{SyncFault, delete_safety, ConnectorDocument, Sync, Services}
use bigrag.Connectors.Files.{is_other, delete_synced_document}
use bigrag.Connectors.Pages.{report_totals}
use bigrag.Connectors.Prune.{
  is_unseen, unseen, guard_deletion_safety, delete_safety_min_tracked, delete_all, prune_rounds,
  prune_for, prune_stale,
}
use bigrag.Connectors.Prune.Ends.{
  list_cases, Same, delete-Same, delete_some, again, round_done, round_more,
}

-- The rows of the unique constraint on source and remote file.
abbrev pub IsDistinct : List ConnectorDocument → Type 0
IsDistinct [] = Unit
IsDistinct (m ∷ manifests) = All (λ n. is_other m n ≡ true) manifests × IsDistinct manifests

is_other-flip : (m n : ConnectorDocument) → is_other m n ≡ true → is_other n m ≡ true
is_other-flip m n h =
    ground (arith, h, eq_iff n.remote_id m.remote_id, eq_iff m.remote_id n.remote_id)

module _ {ℓ} {A : Type ℓ} where
  module _ (P : A → Type 0) (p : A → Bool) where
    All-keep : (xs : List A) → All P xs → All P (keep p xs)
    All-keep [] h = tt
    All-keep (x ∷ xs) h = elim (Bool-cases (p x)) [
      | inl y ↦ rw y (h.0, All-keep xs h.1)
      | inr n ↦ rw n (All-keep xs h.1)
    ]

    All-keep-keep : (q : A → Bool) (xs : List A) → All P (keep p xs) → All P (keep p (keep q xs))
    All-keep-keep q [] h = tt
    All-keep-keep q (x ∷ xs) h = elim (Bool-cases (q x)) [
      | inl y ↦ rw y (elim (Bool-cases (p x)) [
        | inl z ↦ let g = rw z at h in rw z (g.0, All-keep-keep q xs g.1)
        | inr z ↦ rw z (All-keep-keep q xs (rw z at h))
      ])
      | inr n ↦ rw n (elim (Bool-cases (p x)) [
        | inl z ↦ All-keep-keep q xs ((rw z at h).1)
        | inr z ↦ All-keep-keep q xs (rw z at h)
      ])
    ]

  All-take : (P : A → Type 0) (n : ℕ) (xs : List A) → All P xs → All P (take n xs)
  All-take P zero xs h = tt
  All-take P (suc n) [] h = tt
  All-take P (suc n) (x ∷ xs) h = (h.0, All-take P n xs h.1)

  -- What `q` drops is not what `p` keeps.
  keep-keep :
      (p q : A → Bool) (xs : List A)
      → All (λ x. q x ≡ true) (keep p xs)
      → keep p (keep q xs) ≡ keep p xs
  keep-keep p q [] h = refl
  keep-keep p q (x ∷ xs) h = elim (Bool-cases (p x)) [
    | inl y ↦ let g = rw y at h in rw (g.0, y) (ap (◌∷◌ x) (keep-keep p q xs g.1))
    | inr n ↦
        let g = keep-keep p q xs (rw n at h) in
        elim (Bool-cases (q x)) [ inl y ↦ rw (y, n) g | inr z ↦ rw (z, n) g ]
  ]

abbrev pub is_seen : ℕ → ConnectorDocument → Bool
is_seen job m = not (is_unseen job m)

abbrev pub seen : ℕ → Sync → List ConnectorDocument
seen job s = keep (is_seen job) s.manifests

-- A manifest of another remote file than all of these.
abbrev IsApart : List ConnectorDocument → ConnectorDocument → Type 0
IsApart L m = All (λ n. is_other m n ≡ true) L

module _ (job : ℕ) where
  IsApart-more :
      (x : ConnectorDocument) (L unseen_ones : List ConnectorDocument)
      → All (λ n. is_other x n ≡ true) unseen_ones
      → All (IsApart L) unseen_ones
      → All (IsApart (x ∷ L)) unseen_ones
  IsApart-more x L [] h g = tt
  IsApart-more x L (m ∷ unseen_ones) h g =
      ((is_other-flip x m h.0, g.0), IsApart-more x L unseen_ones h.1 g.1)

  IsApart-unseen :
      (M : List ConnectorDocument)
      → IsDistinct M
      → All (IsApart (keep (is_seen job) M)) (keep (is_unseen job) M)
  IsApart-unseen [] h = tt
  IsApart-unseen (x ∷ M) h = elim (Bool-cases (is_unseen job x)) [
    | inl y ↦ rw y (All-keep _ (is_seen job) M h.0, IsApart-unseen M h.1)
    | inr n ↦ rw n (
        IsApart-more x (keep (is_seen job) M) (keep (is_unseen job) M)
          (All-keep _ (is_unseen job) M h.0) (IsApart-unseen M h.1))
  ]

  module _ (L : List ConnectorDocument) where
    -- The seen manifests are these, and no other one is of the same file.
    abbrev Kept : Sync → Type 0
    Kept s = (seen job s ≡ L) × All (IsApart L) (unseen job s)

    module _ (services : Services) where
      delete-Kept :
          (m : ConnectorDocument) → IsApart L m → Keeps Kept (delete_synced_document services m)
      delete-Kept m apart = record {
        at = λ s h.
            let r = delete_synced_document services m s in
            kept r.0 r.1 s.manifests h ((delete-Same services s.manifests m).at s refl);
      }
        where
          kept :
              (r : Result SyncFault (Unit {0})) (t : Sync) (M : List ConnectorDocument)
              → (keep (is_seen job) M ≡ L) × All (IsApart L) (keep (is_unseen job) M)
              → Post (Same (keep (is_other m) M)) (Same M) r t
              → Kept t
          kept (ok u) t M h g = rw g (
            keep-keep (is_seen job) (is_other m) M
                  (subst (All (λ n. is_other m n ≡ true)) (sym h.0) apart)
                ∙ h.0,
            All-keep-keep (IsApart L) (is_unseen job) (is_other m) M h.1,
          )
          kept (err x) t M h g = rw g h

      delete_all-Kept :
          (stale : List ConnectorDocument)
          → All (IsApart L) stale
          → Keeps Kept (delete_all services stale)
      unfolding delete_all
      delete_all-Kept [] apart = Keeps-pure tt
      delete_all-Kept (m ∷ stale) apart =
          Keeps-bind _ _ (delete-Kept m apart.0) λ _. delete_all-Kept stale apart.1

      report-Kept : Keeps Kept report_totals
      report-Kept = record { at = λ s h. h }

      again-Kept :
          (n : ℕ) → Keeps Kept (prune_rounds services n job) → Keeps Kept (again services job n)
      again-Kept n k = Keeps-bind _ _ report-Kept λ _. k

      delete_some-Kept :
          (m : ConnectorDocument) (rest : List ConnectorDocument)
          → All (IsApart L) (m ∷ rest)
          → Keeps Kept (delete_some services job m rest)
      delete_some-Kept m rest apart =
          Keeps-bind _ _ (delete-Kept m apart.0)
            λ _. delete_all-Kept (take 199 rest) (All-take _ 199 rest apart.1)

      prune_rounds-Kept : (n : ℕ) → Keeps Kept (prune_rounds services n job)
      unfolding prune_rounds
      prune_rounds-Kept zero = Keeps-pure false
      prune_rounds-Kept (suc n) =
          let k = prune_rounds-Kept n in
          record {
            at = λ s h. elim (list_cases (unseen job s)) [
              | inl e ↦ subst (λ t. Kept t.1) (sym (round_done services job n s e)) h
              | inr (m, rest, e) ↦
                  subst (λ t. Kept t.1) (sym (round_more services job n s m rest e))
                    ((Keeps-bind _ _ (delete_some-Kept m rest (subst (All (IsApart L)) e h.1))
                        λ _. again-Kept n k).at
                      s h)
            ];
          }

      guard-Kept :
          (max_percent missing tracked : ℕ)
          → Keeps Kept (guard_deletion_safety max_percent missing tracked)
      unfolding guard_deletion_safety
      guard-Kept max_percent missing tracked =
          Keeps-if _ _ _ (Keeps-pure tt)
            (Keeps-if _ _ _ (Keeps-raise delete_safety) (Keeps-pure tt))

      prune_for-Kept : (max_percent : ℕ) → Keeps Kept (prune_for services max_percent job)
      unfolding prune_for
      prune_for-Kept max_percent = Keeps-bind _ _ (Keeps-gets (λ s. length s.manifests)) λ tracked.
          Keeps-bind _ _ (Keeps-gets (λ s. length (unseen job s))) λ missing.
            Keeps-bind _ _ (guard-Kept max_percent missing tracked) λ _.
              Keeps-bind _ _ report-Kept λ _.
                Keeps-bind _ _ (prune_rounds-Kept (suc missing))
                  λ ended. Keeps-pure (missing, ended)

-- If the source has one manifest for a remote file, then prune_stale leaves every manifest that the
-- job has seen, in their order, whatever it deletes and whatever exception ends it.
pub prune_stale-seen :
    (services : Services) (max_percent : ℕ) (s : Sync)
    → IsDistinct s.manifests
    → seen s.job.id (prune_stale services max_percent s).1 ≡ seen s.job.id s
unfolding prune_stale
prune_stale-seen services max_percent s distinct =
    ((prune_for-Kept s.job.id (seen s.job.id s) services max_percent).at s
      (refl, IsApart-unseen s.job.id s.manifests distinct)).0

tests :
    (product missing tracked : ℕ)
    → 10 ≤ tracked
    → product < missing * 100
    → (((missing == 0) || ltb tracked 10) ≡ false) × (ltb product (missing * 100) ≡ true)
tests product missing tracked h g = (ground (arith, h, g), ground (arith, g))

guard_refuses :
    (max_percent missing tracked : ℕ)
    → 10 ≤ tracked
    → tracked * max_percent < missing * 100
    → guard_deletion_safety max_percent missing tracked ≡ raise delete_safety
unfolding guard_deletion_safety delete_safety_min_tracked
guard_refuses max_percent missing tracked h g =
    let (a, b) = tests (tracked * max_percent) missing tracked h g in rw (a, b) refl

-- If at least ten files are tracked and more than the allowed percentage of them is missing, then
-- prune_stale raises the safety error and deletes nothing.
pub prune_stale-refuses :
    (services : Services) (max_percent : ℕ) (s : Sync)
    → 10 ≤ length s.manifests
    → length s.manifests * max_percent < length (unseen s.job.id s) * 100
    → prune_stale services max_percent s ≡ (err delete_safety, s)
unfolding prune_stale prune_for
prune_stale-refuses services max_percent s tracked missing =
    rw (guard_refuses max_percent (length (unseen s.job.id s)) (length s.manifests) tracked missing)
      refl
