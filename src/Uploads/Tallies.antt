-- ===== src/Uploads/Tallies.antt =====
-- How many rows have a status, and the loop of session_counts.
use bigrag.Base.{
  ℕ, suc, ◌+◌, ◌≡◌, refl, Bool, true, false, ◌||◌, Option, none, some, List, [], ◌∷◌, if◌then◌else◌,
  Bool-cases, inl, inr, arith,
}
use bigrag.Ingest.Types.{DocumentStatus, pending, processing, ready}
use bigrag.Uploads.{
  Status, preparing, uploading, queued, ingesting, complete, failed, canceled, same,
  UploadSessionItem, Row, deleted_document_item, effective_item_status, by_document, Tally,
  count_one, count_rows, place, ordered, stands_before,
}

abbrev pub status_in : Row → Status
status_in r = effective_item_status r.0 r.1

-- How many rows have this status.
unfoldable pub how_many : Status → List Row → ℕ
how_many x [] = 0
how_many x (r ∷ rows) =
    let rest = how_many x rows in if same (status_in r) x then suc rest else rest

abbrev pub total : Tally → ℕ
total t =
    t.queued_files + t.processing_files + t.completed_files + t.failed_files + t.canceled_files

-- A status that is counted.
abbrev pub IsShown : Status → Type 0
IsShown preparing = ⊥
IsShown uploading = ⊥
IsShown queued = Unit
IsShown ingesting = Unit
IsShown complete = Unit
IsShown failed = Unit
IsShown canceled = Unit

IsShown-else : (b : Bool) (y : Status) → IsShown y → IsShown (if b then canceled else y)
IsShown-else true y h = tt
IsShown-else false y h = h

IsShown-either :
    (x : Status) (b : Bool) (y : Status)
    → IsShown y
    → IsShown (if same x failed || same x canceled then x else if b then canceled else y)
IsShown-either preparing b y h = IsShown-else b y h
IsShown-either uploading b y h = IsShown-else b y h
IsShown-either queued b y h = IsShown-else b y h
IsShown-either ingesting b y h = IsShown-else b y h
IsShown-either complete b y h = IsShown-else b y h
IsShown-either failed b y h = tt
IsShown-either canceled b y h = tt

IsShown-by_document : (d : Option DocumentStatus) → IsShown (by_document d)
IsShown-by_document none = tt
IsShown-by_document (some pending) = tt
IsShown-by_document (some processing) = tt
IsShown-by_document (some ready) = tt
IsShown-by_document (some DocumentStatus.failed) = tt

pub IsShown-effective :
    (item : UploadSessionItem) (d : Option DocumentStatus) → IsShown (effective_item_status item d)
unfolding effective_item_status
IsShown-effective item d =
    IsShown-either item.status (deleted_document_item item d) (by_document d)
      (IsShown-by_document d)

unfoldable pub adds : Status → Status → ℕ
adds x y = if same x y then 1 else 0

pub how_many-adds :
    (x : Status) (r : Row) (rows : List Row)
    → how_many x (r ∷ rows) ≡ adds (status_in r) x + how_many x rows
unfolding how_many adds
how_many-adds x r rows = elim (Bool-cases (same (status_in r) x)) [
  | inl y ↦ rw y (omega arith)
  | inr n ↦ rw n (omega arith)
]

-- Each count of `t` with the rows' added is the count of `u`.
abbrev pub Counted : (Status → ℕ) → Tally → Tally → Type 0
Counted n t u =
    (u.uploaded_files ≡ t.uploaded_files)
    × (u.queued_files ≡ t.queued_files + n queued)
    × (u.processing_files ≡ t.processing_files + n ingesting)
    × (u.completed_files ≡ t.completed_files + n complete)
    × (u.failed_files ≡ t.failed_files + n failed)
    × (u.canceled_files ≡ t.canceled_files + n canceled)

Counted-count_one : (x : Status) (t : Tally) → Counted (adds x) t (count_one x t)
unfolding adds
Counted-count_one preparing t = ground arith
Counted-count_one uploading t = ground arith
Counted-count_one queued t = ground arith
Counted-count_one ingesting t = ground arith
Counted-count_one complete t = ground arith
Counted-count_one failed t = ground arith
Counted-count_one canceled t = ground arith

Counted-join :
    (m n k : Status → ℕ) (t u v : Tally)
    → ((x : Status) → k x ≡ m x + n x)
    → Counted m t u
    → Counted n u v
    → Counted k t v
Counted-join m n k t u v e (a, b, c, d, f, g) (a', b', c', d', f', g') = (
  omega (arith, a, a'),
  omega (arith, b, b', e queued),
  omega (arith, c, c', e ingesting),
  omega (arith, d, d', e complete),
  omega (arith, f, f', e failed),
  omega (arith, g, g', e canceled),
)

pub Counted-count_rows :
    (rows : List Row) (t : Tally) → Counted (λ x. how_many x rows) t (count_rows rows t)
unfolding count_rows how_many
Counted-count_rows [] t = ground arith
Counted-count_rows (r ∷ rows) t =
    Counted-join (adds (status_in r)) (λ x. how_many x rows) _ t _ _ (λ x. how_many-adds x r rows)
      (Counted-count_one (status_in r) t) (Counted-count_rows rows (count_one (status_in r) t))

how_many-place :
    (x : Status) (r : Row) (rows : List Row) → how_many x (place r rows) ≡ how_many x (r ∷ rows)
unfolding place
how_many-place x r [] = refl
how_many-place x r (s ∷ rows) = elim (Bool-cases (stands_before r s)) [
  | inl y ↦ rw y refl
  | inr n ↦ rw n (
      omega (
        arith,
        how_many-adds x s (place r rows),
        how_many-place x r rows,
        how_many-adds x r rows,
        how_many-adds x r (s ∷ rows),
        how_many-adds x s rows,
      ))
]

pub how_many-ordered : (x : Status) (rows : List Row) → how_many x (ordered rows) ≡ how_many x rows
unfolding ordered
how_many-ordered x [] = refl
how_many-ordered x (r ∷ rows) = omega (
  arith,
  how_many-place x r (ordered rows),
  how_many-ordered x rows,
  how_many-adds x r (ordered rows),
  how_many-adds x r rows,
)
