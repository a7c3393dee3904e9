-- ===== src/Uploads/Counts.antt =====
-- The counts of a session: each is a number of items, and together they are all of them.
use bigrag.Base.{
  ℕ, suc, ◌+◌, ◌≡◌, refl, ap, ◌∙◌, List, [], ◌∷◌, map, length, Bool-cases, inl, inr, arith,
}
use bigrag.Uploads.{
  Status, preparing, uploading, queued, ingesting, complete, failed, canceled, UploadSessionItem,
  DocumentRow, Row, session_counts, place, ordered, stands_before, row_of, session_rows,
}
use bigrag.Uploads.Tallies.{
  status_in, how_many, total, IsShown, IsShown-effective, adds, how_many-adds, Counted-count_rows,
  how_many-ordered,
}

length-place : (r : Row) (rows : List Row) → length (place r rows) ≡ suc (length rows)
unfolding place
length-place r [] = refl
length-place r (s ∷ rows) = elim (Bool-cases (stands_before r s)) [
  | inl y ↦ rw y refl
  | inr n ↦ rw n (omega (arith, length-place r rows))
]

length-ordered : (rows : List Row) → length (ordered rows) ≡ length rows
unfolding ordered
length-ordered [] = refl
length-ordered (r ∷ rows) = omega (arith, length-place r (ordered rows), length-ordered rows)

length-map-row_of :
    (documents : List DocumentRow) (items : List UploadSessionItem)
    → length (map (row_of documents) items) ≡ length items
length-map-row_of documents [] = refl
length-map-row_of documents (item ∷ items) = ap suc (length-map-row_of documents items)

abbrev sum : (Status → ℕ) → ℕ
sum n = n queued + n ingesting + n complete + n failed + n canceled

sum-adds : (x : Status) → IsShown x → sum (adds x) ≡ 1
unfolding adds
sum-adds preparing h = absurd h
sum-adds uploading h = absurd h
sum-adds queued h = refl
sum-adds ingesting h = refl
sum-adds complete h = refl
sum-adds failed h = refl
sum-adds canceled h = refl

sum-how_many : (rows : List Row) → sum (λ x. how_many x rows) ≡ length rows
unfolding how_many
sum-how_many [] = refl
sum-how_many (r ∷ rows) = omega (
  arith,
  sum-how_many rows,
  sum-adds (status_in r) (IsShown-effective r.0 r.1),
  how_many-adds queued r rows,
  how_many-adds ingesting r rows,
  how_many-adds complete r rows,
  how_many-adds failed r rows,
  how_many-adds canceled r rows,
)

-- How many items have this status, in the order of the table.
abbrev pub items_with : Status → List DocumentRow → List UploadSessionItem → ℕ
items_with x documents items = how_many x (map (row_of documents) items)

session_counts-Counted :
    (documents : List DocumentRow) (items : List UploadSessionItem)
    → let t = session_counts (session_rows documents items) in
      (t.uploaded_files ≡ length items)
      × (t.queued_files ≡ items_with queued documents items)
      × (t.processing_files ≡ items_with ingesting documents items)
      × (t.completed_files ≡ items_with complete documents items)
      × (t.failed_files ≡ items_with failed documents items)
      × (t.canceled_files ≡ items_with canceled documents items)
unfolding session_counts session_rows
session_counts-Counted documents items =
    let rows = map (row_of documents) items in
    let (a, b, c, d, e, f) = Counted-count_rows (ordered rows) _ in
    (
      a ∙ length-ordered rows ∙ length-map-row_of documents items,
      omega (arith, b, how_many-ordered queued rows),
      omega (arith, c, how_many-ordered ingesting rows),
      omega (arith, d, how_many-ordered complete rows),
      omega (arith, e, how_many-ordered failed rows),
      omega (arith, f, how_many-ordered canceled rows),
    )

-- The counts of a session are the numbers of its items with each effective status, in whatever order
-- the rows come, and together they are all the items that were uploaded.
pub session_counts-items :
    (documents : List DocumentRow) (items : List UploadSessionItem)
    → let t = session_counts (session_rows documents items) in
      (t.queued_files ≡ items_with queued documents items)
      × (t.processing_files ≡ items_with ingesting documents items)
      × (t.completed_files ≡ items_with complete documents items)
      × (t.failed_files ≡ items_with failed documents items)
      × (t.canceled_files ≡ items_with canceled documents items)
      × (t.uploaded_files ≡ length items)
      × (total t ≡ length items)
session_counts-items documents items =
    let (a, b, c, d, e, f) = session_counts-Counted documents items in
    (
      b,
      c,
      d,
      e,
      f,
      a,
      omega (
        arith,
        b,
        c,
        d,
        e,
        f,
        sum-how_many (map (row_of documents) items),
        length-map-row_of documents items,
      ),
    )
