-- ===== src/Uploads/Persist.antt =====
-- What upload_session_response stores when it persists the counts.
use bigrag.Base.{
  ℕ, suc, ◌≡◌, refl, sym, ap, ◌∙◌, Bool, true, false, ◌||◌, ◌&&◌, Option, List, [], ◌∷◌, map,
  if◌then◌else◌, length, Bool-cases, inl, inr, All, arith,
}
use bigrag.Ingest.Types.{DocumentStatus}
use bigrag.Uploads.{
  Status, preparing, uploading, queued, ingesting, complete, failed, canceled, same,
  UploadSessionItem, UploadSession, DocumentRow, deleted_document_item, effective_item_status,
  by_document, document_of, status_of, Tally, row_of, session_rows, session_counts,
  session_status_value,
}
use bigrag.Uploads.Requests.{
  Uploading, UploadSessionResponse, tally_of, mark_deleted, persist_counts, response_of,
  upload_session_response,
}
use bigrag.Uploads.Counts.{items_with, session_counts-items}
use bigrag.Uploads.Tallies.{how_many}

tally_ext :
    (t u : Tally)
    → t.uploaded_files ≡ u.uploaded_files
    → t.queued_files ≡ u.queued_files
    → t.processing_files ≡ u.processing_files
    → t.completed_files ≡ u.completed_files
    → t.failed_files ≡ u.failed_files
    → t.canceled_files ≡ u.canceled_files
    → t ≡ u
tally_ext t u a b c d e f = cc

kept_status :
    (x : Status) (b : Bool) (y : Status)
    → b ≡ true
    → (same x failed && b) ≡ false
    → (if same x failed || same x canceled then x else if b then canceled else y) ≡ canceled
kept_status preparing b y h k = rw h refl
kept_status uploading b y h k = rw h refl
kept_status queued b y h k = rw h refl
kept_status ingesting b y h k = rw h refl
kept_status complete b y h k = rw h refl
kept_status failed b y h k = absurd (ground (arith, h, k))
kept_status canceled b y h k = refl

module _ (documents : List DocumentRow) where
  -- The document's status as the outer join sees it.
  abbrev pub joined_status : UploadSessionItem → Option DocumentStatus
  joined_status item = status_of (document_of item.document_id documents)

  abbrev pub is_orphan : UploadSessionItem → Bool
  is_orphan item = deleted_document_item item (joined_status item)

  -- No item failed without a document.
  abbrev pub IsKept : UploadSessionItem → Type 0
  IsKept item = (same item.status failed && is_orphan item) ≡ false

  abbrev pub effective : UploadSessionItem → Status
  effective item = effective_item_status item (joined_status item)

  mark_deleted-document :
      (now : ℕ) (item : UploadSessionItem)
      → (mark_deleted now documents item).document_id ≡ item.document_id
  unfolding mark_deleted
  mark_deleted-document now item = elim (Bool-cases (is_orphan item)) [
    | inl y ↦ rw y refl
    | inr n ↦ rw n refl
  ]

  mark_deleted-other :
      (now : ℕ) (item : UploadSessionItem)
      → is_orphan item ≡ false
      → mark_deleted now documents item ≡ item
  unfolding mark_deleted
  mark_deleted-other now item h = rw h refl

  effective-orphan :
      (item : UploadSessionItem) → is_orphan item ≡ true → IsKept item → effective item ≡ canceled
  unfolding effective_item_status
  effective-orphan item h k =
      kept_status item.status (is_orphan item) (by_document (joined_status item)) h k

  effective-marked :
      (now : ℕ) (item : UploadSessionItem)
      → is_orphan item ≡ true
      → effective (mark_deleted now documents item) ≡ canceled
  unfolding effective_item_status mark_deleted
  effective-marked now item h = rw h refl

  effective-mark_deleted :
      (now : ℕ) (item : UploadSessionItem)
      → IsKept item
      → effective (mark_deleted now documents item) ≡ effective item
  effective-mark_deleted now item k = elim (Bool-cases (is_orphan item)) [
    | inl y ↦ effective-marked now item y ∙ sym (effective-orphan item y k)
    | inr n ↦ ap effective (mark_deleted-other now item n)
  ]

  items_with-marked :
      (now : ℕ) (x : Status) (items : List UploadSessionItem)
      → All IsKept items
      → items_with x documents (map (mark_deleted now documents) items)
        ≡ items_with x documents items
  unfolding how_many row_of
  items_with-marked now x [] k = refl
  items_with-marked now x (item ∷ items) k =
      rw (effective-mark_deleted now item k.0) (rw (items_with-marked now x items k.1) refl)

  length-marked :
      (now : ℕ) (items : List UploadSessionItem)
      → length (map (mark_deleted now documents) items) ≡ length items
  length-marked now [] = refl
  length-marked now (item ∷ items) = ap suc (length-marked now items)

tally-marked :
    (now : ℕ) (documents : List DocumentRow) (items : List UploadSessionItem)
    → All (IsKept documents) items
    → session_counts (session_rows documents (map (mark_deleted now documents) items))
      ≡ session_counts (session_rows documents items)
tally-marked now documents items k =
    let (a, b, c, d, e, f, _) = session_counts-items documents items in
    let (a', b', c', d', e', f', _) =
      session_counts-items documents (map (mark_deleted now documents) items) in
    let same_items : (x : Status)
        → items_with x documents (map (mark_deleted now documents) items)
          ≡ items_with x documents items =
      λ x. items_with-marked documents now x items k in
    tally_ext _ _ (f' ∙ length-marked documents now items ∙ sym f) (a' ∙ same_items queued ∙ sym a)
      (b' ∙ same_items ingesting ∙ sym b) (c' ∙ same_items complete ∙ sym c)
      (d' ∙ same_items failed ∙ sym d) (e' ∙ same_items canceled ∙ sym e)

only_canceled :
    (p q r a f : Bool)
    → same
        (if p
          then canceled
          else if q
          then (if r then uploading else preparing)
          else if a
          then ingesting
          else if f
          then failed
          else complete)
        canceled
      ≡ p
only_canceled true q r a f = refl
only_canceled false true true a f = refl
only_canceled false true false a f = refl
only_canceled false false r true f = refl
only_canceled false false r false true = refl
only_canceled false false r false false = refl

-- A computed status is canceled only where the session was.
pub session_status_value-canceled :
    (session : UploadSession) (t : Tally)
    → same (session_status_value session t) canceled ≡ same session.status canceled
unfolding session_status_value
session_status_value-canceled session t = only_canceled _ _ _ _ _

-- A status that was computed is computed again.
session_status_value-again :
    (session again : UploadSession) (t : Tally)
    → again.status ≡ session_status_value session t
    → again.total_files ≡ session.total_files
    → session_status_value again t ≡ session_status_value session t
unfolding session_status_value
session_status_value-again session again t h g =
    let e = ap (λ x. same x canceled) h ∙ session_status_value-canceled session t in rw (e, g) refl

-- The session's columns say what the response says.
abbrev pub IsStored : UploadSession → UploadSessionResponse → Type 0
IsStored session r =
    (session.status ≡ r.status)
    × (session.uploaded_files ≡ r.counts.uploaded_files)
    × (session.queued_files ≡ r.counts.queued_files)
    × (session.completed_files ≡ r.counts.completed_files)
    × (session.failed_files ≡ r.counts.failed_files)
    × (session.canceled_files ≡ r.counts.canceled_files)

tally_of-persist :
    (now : ℕ) (s : Uploading)
    → All (IsKept s.documents) s.items
    → tally_of (persist_counts now s) ≡ tally_of s
unfolding persist_counts
tally_of-persist now s k = tally-marked now s.documents s.items k

status-persist :
    (now : ℕ) (s : Uploading) (t : Tally)
    → t ≡ tally_of s
    → session_status_value (persist_counts now s).session t ≡ session_status_value s.session t
unfolding persist_counts
status-persist now s t e =
    session_status_value-again s.session _ t (ap (session_status_value s.session) (sym e)) refl

columns :
    (now : ℕ) (s : Uploading)
    → let c = (persist_counts now s).session in
      (c.status ≡ session_status_value s.session (tally_of s))
      × (c.uploaded_files ≡ (tally_of s).uploaded_files)
      × (c.queued_files ≡ (tally_of s).queued_files)
      × (c.completed_files ≡ (tally_of s).completed_files)
      × (c.failed_files ≡ (tally_of s).failed_files)
      × (c.canceled_files ≡ (tally_of s).canceled_files)
unfolding persist_counts
columns now s = (refl, refl, refl, refl, refl, refl)

-- If no item failed without a document, then a response that persists the counts has the counts and
-- the status of one that does not, and the columns of the session say the same.
pub upload_session_response-IsStored :
    (now : ℕ) (s : Uploading)
    → All (IsKept s.documents) s.items
    → let (shown, after) = upload_session_response true now s in
      let (plain, before) = upload_session_response false now s in
      (shown.counts ≡ plain.counts) × (shown.status ≡ plain.status) × IsStored after.session shown
unfolding upload_session_response response_of
upload_session_response-IsStored now s k =
    let e = tally_of-persist now s k in
    let v = status-persist now s (tally_of s) refl in
    let (a, b, c, d, f, g) = columns now s in rw e (refl, v, (a ∙ sym v, b, c, d, f, g))
