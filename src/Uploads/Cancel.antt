-- ===== src/Uploads/Cancel.antt =====
-- No file of a session that was canceled is still waited for.
use bigrag.Base.{
  ℕ, ◌+◌, ◌≡◌, refl, ap, Bool, true, false, ◌||◌, ◌&&◌, String, Option, none, some, List, [], ◌∷◌,
  map, if◌then◌else◌, Bool-cases, inl, inr, All, any_of, text_eq, is_some, arith,
}
use bigrag.Ingest.Types.{DocumentStatus, pending, processing, ready}
use bigrag.Uploads.{
  Status, preparing, uploading, queued, ingesting, complete, failed, canceled, same,
  UploadSessionItem, UploadSession, Tally, session_status_value, DocumentRow, deleted_document_item,
  effective_item_status, by_document, document_of, status_of,
}
use bigrag.Uploads.Requests.{
  Uploading, rows_of, response_of, is_active, is_pending, cancel_document, cancel_item,
  cancel_upload_session, pending_document_ids,
}
use bigrag.Uploads.Counts.{items_with, session_counts-items}
use bigrag.Uploads.Tallies.{how_many}
use bigrag.Uploads.Persist.{effective}

settled_status :
    (x : Status) (b c : Bool) (y : Status)
    → b ≡ false
    → is_active (if same x failed || same x canceled then x else if b then canceled else queued)
      ≡ false
    → is_active (if same x failed || same x canceled then x else if c then canceled else y) ≡ false
settled_status preparing b c y h k = absurd (ground (arith, rw h at k))
settled_status uploading b c y h k = absurd (ground (arith, rw h at k))
settled_status queued b c y h k = absurd (ground (arith, rw h at k))
settled_status ingesting b c y h k = absurd (ground (arith, rw h at k))
settled_status complete b c y h k = absurd (ground (arith, rw h at k))
settled_status failed b c y h k = refl
settled_status canceled b c y h k = refl

pending_there : (item : UploadSessionItem) → deleted_document_item item (some pending) ≡ false
unfolding deleted_document_item
pending_there item = elim (Bool-cases (is_some item.document_id)) [
  | inl y ↦ rw y refl
  | inr n ↦ rw n refl
]

-- An item that is over although its document waits is over whatever the document's status is.
over_while_pending :
    (item : UploadSessionItem) (st : Option DocumentStatus)
    → is_active (effective_item_status item (some pending)) ≡ false
    → is_active (effective_item_status item st) ≡ false
unfolding effective_item_status
over_while_pending item st h =
    settled_status item.status (deleted_document_item item (some pending))
      (deleted_document_item item st) (by_document st) (pending_there item) h

over-canceled :
    (item : UploadSessionItem) (st : Option DocumentStatus)
    → item.status ≡ canceled
    → is_active (effective_item_status item st) ≡ false
unfolding effective_item_status
over-canceled item st h = rw h refl

is_pending-pending : (x : DocumentStatus) → is_pending x ≡ true → x ≡ pending
is_pending-pending pending h = refl
is_pending-pending processing h = cc
is_pending-pending ready h = cc
is_pending-pending DocumentStatus.failed h = cc

module _ (deleted : String → Bool) (ids : List String) where
  abbrev canceled_documents : List DocumentRow → List DocumentRow
  canceled_documents documents = map (cancel_document deleted ids) documents

  cancel_document-id : (d : DocumentRow) → (cancel_document deleted ids d).id ≡ d.id
  unfolding cancel_document
  cancel_document-id d = elim (Bool-cases (any_of (text_eq d.id) ids && is_pending d.status)) [
    | inl y ↦ rw y refl
    | inr n ↦ rw n refl
  ]

  abbrev changed : Option DocumentRow → Option DocumentRow
  changed none = none
  changed (some d) = some (cancel_document deleted ids d)

  document_of-canceled :
      (id : Option String) (documents : List DocumentRow)
      → document_of id (canceled_documents documents) ≡ changed (document_of id documents)
  unfolding document_of
  document_of-canceled none documents = refl
  document_of-canceled (some id) [] = refl
  document_of-canceled (some id) (d ∷ documents) =
      rw (ap (λ i. text_eq i id) (cancel_document-id d)) (elim (Bool-cases (text_eq d.id id)) [
        | inl y ↦ rw y refl
        | inr n ↦ rw n (document_of-canceled (some id) documents)
      ])

  -- A document that is not waited for is left alone.
  cancel_document-settled :
      (d : DocumentRow) → is_pending d.status ≡ false → cancel_document deleted ids d ≡ d
  unfolding cancel_document
  cancel_document-settled d h = elim (Bool-cases (any_of (text_eq d.id) ids)) [
    | inl y ↦ rw (y, h) refl
    | inr n ↦ rw n refl
  ]

  status-settled :
      (item : UploadSessionItem) (d : Option DocumentRow)
      → is_active (effective_item_status item (status_of d)) ≡ false
      → is_active (effective_item_status item (status_of (changed d))) ≡ false
  status-settled item none h = h
  status-settled item (some d) h = elim (Bool-cases (is_pending d.status)) [
    | inl y ↦ over_while_pending item _ (rw (is_pending-pending d.status y) at h)
    | inr n ↦ rw (cancel_document-settled d n) h
  ]

  module _ (now : ℕ) (documents : List DocumentRow) where
    cancel_item-over :
        (item : UploadSessionItem)
        → is_active (effective (canceled_documents documents) (cancel_item now documents item))
          ≡ false
    unfolding cancel_item
    cancel_item-over item = elim (Bool-cases (is_active (effective documents item))) [
      | inl y ↦ rw y (over-canceled _ _ refl)
      | inr n ↦ rw n (
          rw (document_of-canceled item.document_id documents)
            (status-settled item (document_of item.document_id documents) n))
    ]

    cancel_items-over :
        (items : List UploadSessionItem)
        → All
            (λ item. is_active (effective (canceled_documents documents) item) ≡ false)
            (map (cancel_item now documents) items)
    cancel_items-over [] = tt
    cancel_items-over (item ∷ items) = (cancel_item-over item, cancel_items-over items)

-- Items that are over are none of the queued and none of the ingesting ones.
items_with-over :
    (documents : List DocumentRow) (items : List UploadSessionItem)
    → All (λ item. is_active (effective documents item) ≡ false) items
    → items_with queued documents items + items_with ingesting documents items ≡ 0
unfolding how_many bigrag.Uploads.row_of
items_with-over documents [] h = refl
items_with-over documents (item ∷ items) h =
    ground (arith, h.0, items_with-over documents items h.1)

status-canceled :
    (session : UploadSession) (t : Tally)
    → session.status ≡ canceled
    → session_status_value session t ≡ canceled
unfolding session_status_value
status-canceled session t h = rw h refl

-- After a cancellation no item of the session is queued or ingesting, whatever documents the items
-- share, and the response counts no active file and has the status canceled.
pub cancel_upload_session-over :
    (deleted : String → Bool) (now : ℕ) (s : Uploading)
    → let after = cancel_upload_session deleted now s in
      All (λ item. is_active (effective after.documents item) ≡ false) after.items
      × ((response_of after).active_files ≡ 0)
      × ((response_of after).status ≡ canceled)
unfolding cancel_upload_session response_of
cancel_upload_session-over deleted now s =
    let ids = pending_document_ids (rows_of s) in
    let over = cancel_items-over deleted ids now s.documents s.items in
    let documents = map (cancel_document deleted ids) s.documents in
    let items = map (cancel_item now s.documents) s.items in
    let c = session_counts-items documents items in
    (over, omega (arith, c.0, c.1, items_with-over documents items over), status-canceled _ _ refl)
