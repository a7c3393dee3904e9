-- ===== src/Connectors/Prune/Ends.antt =====
-- The loop of prune_stale ends: each round removes a manifest that the job did not see.
use bigrag.Base.{
  ℕ, zero, suc, ◌≤◌, ◌<◌, ◌≡◌, ◌⊎◌, inl, inr, refl, sym, ap, ◌∙◌, subst, Bool, true, false, not,
  Option, none, some, List, [], ◌∷◌, length, take, keep, eq_refl, Bool-cases, arith,
}
use bigrag.Base.Result.{Result, ok, err}
use bigrag.Base.Exec.{continue, ◌>>◌}
use bigrag.Base.Exec.Triple.{
  Post, Triple, Triple-gets, Triple-lift, Triple-bind, Triple-modify, Triple-weaken,
}
use bigrag.Connectors.{SyncFault, ConnectorDocument, SyncedDocument, Sync, Method, Services}
use bigrag.Connectors.Files.{
  is_other, forget_manifest, find_document, remove_document, delete_synced_document,
}
use bigrag.Connectors.Pages.{report_totals}
use bigrag.Connectors.Prune.{is_unseen, unseen, delete_batch_size, delete_all, prune_rounds}

module _ {ℓ} {A : Type ℓ} (p q : A → Bool) where
  length-keep-le : (xs : List A) → length (keep p (keep q xs)) ≤ length (keep p xs)
  length-keep-le [] = omega arith
  length-keep-le (x ∷ xs) = ground (arith, length-keep-le xs)

  -- The first that is kept by `p`, dropped by `q`, is missing then.
  length-keep-lt :
      (xs : List A) (m : A) (rest : List A)
      → keep p xs ≡ m ∷ rest
      → q m ≡ false
      → length (keep p (keep q xs)) < length (keep p xs)
  length-keep-lt [] m rest h d = cc
  length-keep-lt (x ∷ xs) m rest h d = elim (Bool-cases (p x)) [
    | inl y ↦
        let e : x ≡ m = (let g = rw y at h in cc) in
        let qx = ap q e ∙ d in rw (qx, y) (omega (arith, length-keep-le xs))
    | inr n ↦ ground (arith, n, length-keep-lt xs m rest (rw n at h) d)
  ]

pub list_cases {ℓ} :
    {A : Type ℓ} (xs : List A) → (xs ≡ []) ⊎ ((x : A) × (rest : List A) × (xs ≡ x ∷ rest))
list_cases [] = inl refl
list_cases (x ∷ xs) = inr (x, xs, refl)

-- The manifests are these.
abbrev pub Same : List ConnectorDocument → Sync → Type 0
Same M s = s.manifests ≡ M

abbrev Anything : Sync → Type 0
Anything s = Unit

forget-Same :
    (M : List ConnectorDocument) (m : ConnectorDocument)
    → Triple (Same M) (forget_manifest m) (Same (keep (is_other m) M)) (Same M)
forget-Same M m = record { at = λ s h. ap (keep (is_other m)) h }

module _ (services : Services) where
  remove_document-Same :
      (M : List ConnectorDocument) (d : Option SyncedDocument)
      → Triple (Same M) (remove_document services d) (Same M) (Same M)
  remove_document-Same M none = record { at = λ s h. h }
  remove_document-Same M (some d) =
      Triple-bind _ _ (Triple-lift (services.cancel_documents d.id)) λ _.
        Triple-bind _ _ (Triple-lift (services.delete_staged_file_path d.file_path)) λ _.
          Triple-bind _ _ (Triple-lift (services.delete_by_document d.id))
            λ _. Triple-modify {Q = Same M} _ (λ s h. h)

  -- A deletion takes the rows of the manifest's remote file, or nothing if it raises.
  pub delete-Same :
      (M : List ConnectorDocument) (m : ConnectorDocument)
      → Triple (Same M) (delete_synced_document services m) (Same (keep (is_other m) M)) (Same M)
  unfolding delete_synced_document
  delete-Same M m =
      Triple-bind {Q = Same M} _ _ (Triple-gets (λ s. find_document m.document_id s.documents))
        λ d. Triple-bind {Q = Same M} _ _ (remove_document-Same M d) λ _. forget-Same M m

-- The number of manifests that the job has not seen.
abbrev pub left : ℕ → Sync → ℕ
left job s = length (unseen job s)

module _ (services : Services) (job : ℕ) where
  delete-Least :
      (k : ℕ) (m : ConnectorDocument)
      → Triple
          (λ s. left job s ≤ k)
          (delete_synced_document services m)
          (λ s. left job s ≤ k)
          Anything
  delete-Least k m = record {
    at = λ s h.
        let r = delete_synced_document services m s in
        weaken_left r.0 r.1 s.manifests h ((delete-Same services s.manifests m).at s refl);
  }
    where
      weaken_left :
          (r : Result SyncFault (Unit {0})) (t : Sync) (M : List ConnectorDocument)
          → length (keep (is_unseen job) M) ≤ k
          → Post (Same (keep (is_other m) M)) (Same M) r t
          → Post (λ s. left job s ≤ k) Anything r t
      weaken_left (ok u) t M h g =
          rw g (omega (arith, length-keep-le (is_unseen job) (is_other m) M, h))
      weaken_left (err x) t M h g = tt

  delete_all-Least :
      (k : ℕ) (stale : List ConnectorDocument)
      → Triple (λ s. left job s ≤ k) (delete_all services stale) (λ s. left job s ≤ k) Anything
  unfolding delete_all
  delete_all-Least k [] = record { at = λ s h. h }
  delete_all-Least k (m ∷ stale) = Triple-bind _ _ (delete-Least k m) λ _. delete_all-Least k stale

  -- Deleting the first manifest that was not seen, there is one less.
  delete-first :
      (s : Sync) (m : ConnectorDocument) (rest : List ConnectorDocument)
      → unseen job s ≡ m ∷ rest
      → Triple
          (λ t. t ≡ s)
          (delete_synced_document services m)
          (λ t. suc (left job t) ≤ left job s)
          Anything
  delete-first s m rest h = record {
    at = λ t e.
        let r = delete_synced_document services m t in
        first_gone r.0 r.1 ((delete-Same services s.manifests m).at t (ap (λ u. u.manifests) e));
  }
    where
      first_gone :
          (r : Result SyncFault (Unit {0})) (t : Sync)
          → Post (Same (keep (is_other m) s.manifests)) (Same s.manifests) r t
          → Post (λ t. suc (left job t) ≤ left job s) Anything r t
      first_gone (ok u) t g = rw g (
          omega (
            arith,
            length-keep-lt (is_unseen job) (is_other m) s.manifests m rest h
                (ap not (eq_refl m.remote_id)),
          ))
      first_gone (err x) t g = tt

  -- The loop ended with nothing left, or an exception left it.
  abbrev pub IsEnded : Result SyncFault Bool × Sync → Type 0
  IsEnded p = ((p.0 ≡ ok true) × (unseen job p.1 ≡ [])) ⊎ ((x : SyncFault) × (p.0 ≡ err x))

  pub round_done :
      (n : ℕ) (s : Sync) → unseen job s ≡ [] → prune_rounds services (suc n) job s ≡ (ok true, s)
  unfolding prune_rounds delete_batch_size
  round_done n s h = rw h refl

  -- What a round does when a manifest is left.
  abbrev pub delete_some : ConnectorDocument → List ConnectorDocument → Method (Unit {0})
  delete_some m rest = delete_synced_document services m >> delete_all services (take 199 rest)

  abbrev pub again : ℕ → Method Bool
  again n = report_totals >> prune_rounds services n job

  pub round_more :
      (n : ℕ) (s : Sync) (m : ConnectorDocument) (rest : List ConnectorDocument)
      → unseen job s ≡ m ∷ rest
      → prune_rounds services (suc n) job s ≡ (delete_some m rest >> again n) s
  unfolding prune_rounds delete_batch_size delete_all
  round_more n s m rest h = rw h refl

  delete_some-Least :
      (n : ℕ) (s : Sync) (m : ConnectorDocument) (rest : List ConnectorDocument)
      → unseen job s ≡ m ∷ rest
      → left job s ≤ suc n
      → Triple (λ t. t ≡ s) (delete_some m rest) (λ t. left job t ≤ n) Anything
  delete_some-Least n s m rest h few =
      Triple-bind {Q = λ t. left job t ≤ n} _ _
        (Triple-weaken (delete-first s m rest h) (λ t g. omega (arith, g, few)) (λ t g. g))
        λ _. delete_all-Least n (take 199 rest)

  IsEnded-continue :
      (n : ℕ) (r : Result SyncFault (Unit {0})) (s : Sync)
      → Post (λ t. left job t ≤ n) Anything r s
      → ((t : Sync) → left job t ≤ n → IsEnded (prune_rounds services (suc n) job t))
      → IsEnded (continue r (λ _. again (suc n)) s)
  IsEnded-continue n (ok u) s h k = k _ h
  IsEnded-continue n (err x) s h k = inr (x, refl)

  prune_rounds-IsEnded :
      (n : ℕ) (s : Sync) → left job s ≤ n → IsEnded (prune_rounds services (suc n) job s)
  prune_rounds-IsEnded zero s few = elim (list_cases (unseen job s)) [
    | inl e ↦ subst IsEnded (sym (round_done zero s e)) (inl (refl, e))
    | inr (m, rest, e) ↦ absurd (omega (arith, few, ap length e))
  ]
  prune_rounds-IsEnded (suc n) s few = elim (list_cases (unseen job s)) [
    | inl e ↦ subst IsEnded (sym (round_done (suc n) s e)) (inl (refl, e))
    | inr (m, rest, e) ↦ subst IsEnded (sym (round_more (suc n) s m rest e)) (
        IsEnded-continue n _ _ ((delete_some-Least n s m rest e few).at s refl)
          (prune_rounds-IsEnded n))
  ]

  -- However many manifests the job has not seen and whatever the services answer, one round more than
  -- there are of them is enough for the loop of prune_stale: it ends with none left, or with an
  -- exception.
  pub prune_rounds-ends : (s : Sync) → IsEnded (prune_rounds services (suc (left job s)) job s)
  prune_rounds-ends s = prune_rounds-IsEnded (left job s) s (omega arith)
