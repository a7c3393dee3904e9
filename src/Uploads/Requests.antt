-- ===== src/Uploads/Requests.antt =====
-- The requests that change an upload session: upload_session_response, upload_session_items.py, and
-- the endpoints complete and cancel of api/bigrag/routers/upload_sessions.py.
use bigrag.Base.{
  ℕ, ◌+◌, String, Bool, true, false, ◌&&◌, ◌||◌, not, Option, none, some, List, [], ◌∷◌, ◌++◌, map,
  text_eq, ◌==◌, if◌then◌else◌, take, any_of,
}
use bigrag.Base.Result.{Result, ok, err, ◌>>◌, raise_if}
use bigrag.Base.Text.{is_empty}
use bigrag.Ingest.Types.{DocumentStatus, pending}
use bigrag.Uploads.{
  Status, queued, ingesting, complete, failed, canceled, same, UploadSessionItem, UploadSession,
  DocumentRow, Row, deleted_document_item, effective_item_status, or_text, ItemResponse,
  item_response, document_of, status_of, session_rows, session_counts, session_status_value, Tally,
}
use bigrag.Uploads.Items.{Upload, overwrite, write_item}

-- A session, its items, the documents, and the ids that the queue was told to cancel.
pub record Uploading : Type 0 where
  pub session : UploadSession
  pub items : List UploadSessionItem
  pub documents : List DocumentRow
  pub told : List String

pub record UploadSessionResponse : Type 0 where
  pub status : Status
  pub counts : Tally
  pub active_files : ℕ
  pub total_files : ℕ
  pub recent_items : List ItemResponse
  pub closed_at : Option ℕ

abbrev pub rows_of : Uploading → List Row
rows_of s = session_rows s.documents s.items

abbrev pub tally_of : Uploading → Tally
tally_of s = session_counts (rows_of s)

unfoldable pub shown : Row → ItemResponse
shown (item, status, error) = item_response item status error

unfoldable pub response_of : Uploading → UploadSessionResponse
response_of s = record {
  status = session_status_value s.session (tally_of s);
  counts = tally_of s;
  active_files = (tally_of s).queued_files + (tally_of s).processing_files;
  total_files = s.session.total_files;
  recent_items = map shown (take 20 (rows_of s));
  closed_at = s.session.closed_at;
}

abbrev pub has_text : Option String → Bool
has_text none = false
has_text (some s) = not (is_empty s)

-- An item whose document is gone. An item that says so already is not written again.
unfoldable pub mark_deleted : ℕ → List DocumentRow → UploadSessionItem → UploadSessionItem
mark_deleted now documents item =
    let unchanged = same item.status canceled && has_text item.error_message in
    if deleted_document_item item (status_of (document_of item.document_id documents))
    then record item {
      status = canceled;
      error_message = or_text item.error_message (some "Document deleted");
      updated_at = if unchanged then item.updated_at else now;
    }
    else item

unfoldable pub is_terminal : Status → Bool
is_terminal status = same status complete || same status failed || same status canceled

abbrev pub close : Bool → ℕ → Option ℕ → Option ℕ
close true now none = some now
close true now (some t) = some t
close false now c = c

unfoldable pub persist_counts : ℕ → Uploading → Uploading
persist_counts now s =
    let t = tally_of s in
    let status = session_status_value s.session t in
    record s {
      session = record s.session {
        status = status;
        uploaded_files = t.uploaded_files;
        queued_files = t.queued_files;
        completed_files = t.completed_files;
        failed_files = t.failed_files;
        canceled_files = t.canceled_files;
        closed_at = close (is_terminal status) now s.session.closed_at;
      };
      items = map (mark_deleted now s.documents) s.items;
    }

unfoldable pub upload_session_response : Bool → ℕ → Uploading → UploadSessionResponse × Uploading
upload_session_response persist now s =
    let after = persist_counts now s in
    if persist then (response_of after, after) else (response_of s, s)

unfoldable pub fail_item : ℕ → Upload → String → Uploading → Uploading
fail_item now u message s = record s {
  items = write_item u.client_item_id (overwrite now u failed (some message)) s.items;
}

unfoldable pub reserve_item : ℕ → Upload → Uploading → Uploading
reserve_item now u s = record s {
  items = write_item u.client_item_id (overwrite now u queued none) s.items;
}

-- `failure_response`, for its response on the session
unfoldable pub failure_response :
    ℕ → Upload → String → Uploading → UploadSessionResponse × Uploading
failure_response now u message s = upload_session_response true now (fail_item now u message s)

-- `complete_upload_session`; `err` is the status of an `HTTPException`.
unfoldable pub complete_upload_session :
    ℕ → Uploading → Result ℕ (UploadSessionResponse × Uploading)
complete_upload_session now s = do
  raise_if (same s.session.status canceled) 409
  let closed = record s {
    session = record s.session { closed_at = close true now s.session.closed_at };
  }
  ok (upload_session_response true now closed)

abbrev pub is_active : Status → Bool
is_active status = same status queued || same status ingesting

-- The documents whose item is queued, by their ids.
unfoldable pub pending_document_ids : List Row → List String
pending_document_ids [] = []
pending_document_ids ((item, status, e) ∷ rows) =
    let rest = pending_document_ids rows in
    let waits = same (effective_item_status item status) queued in
    elim item.document_id [ none ↦ rest | some id ↦ if waits then id ∷ rest else rest ]

abbrev pub is_pending : DocumentStatus → Bool
is_pending pending = true
is_pending _ = false

-- `deleted` tells which staged files are there to be deleted.
unfoldable pub cancel_document : (String → Bool) → List String → DocumentRow → DocumentRow
cancel_document deleted ids d =
    if any_of (text_eq d.id) ids && is_pending d.status
    then record d {
      file_path = if deleted d.file_path then "" else d.file_path;
      status = DocumentStatus.failed;
      error_message = some "Upload session canceled";
    }
    else d

unfoldable pub cancel_item : ℕ → List DocumentRow → UploadSessionItem → UploadSessionItem
cancel_item now documents item =
    if is_active (effective_item_status item (status_of (document_of item.document_id documents)))
    then record item {
      status = canceled;
      error_message = some "Upload session canceled";
      storage_key = none;
      updated_at = now;
    }
    else item

unfoldable pub document_ids : List Row → List String
document_ids [] = []
document_ids ((item, status, e) ∷ rows) =
    let rest = document_ids rows in elim item.document_id [ none ↦ rest | some id ↦ id ∷ rest ]

unfoldable pub cancel_upload_session : (String → Bool) → ℕ → Uploading → Uploading
cancel_upload_session deleted now s = record s {
  told = s.told ++ document_ids (rows_of s);
  session = record s.session { status = canceled; closed_at = close true now s.session.closed_at };
  items = map (cancel_item now s.documents) s.items;
  documents = map (cancel_document deleted (pending_document_ids (rows_of s))) s.documents;
}

abbrev is_owner : Option ℕ → Option ℕ → Bool
is_owner none owner = true
is_owner (some u) none = false
is_owner (some u) (some o) = o == u

-- `get_upload_session`, for a text that is the UUID `target`, or none
unfoldable pub get_upload_session :
    List UploadSession → ℕ → Option ℕ → Option ℕ → Result ℕ UploadSession
get_upload_session sessions collection_id none user_id = err 404
get_upload_session [] collection_id (some target) user_id = err 404
get_upload_session (s ∷ sessions) collection_id (some target) user_id =
    let rest = get_upload_session sessions collection_id (some target) user_id in
    if (s.id == target) && ((s.collection_id == collection_id) && is_owner user_id s.created_by)
    then ok s
    else rest
