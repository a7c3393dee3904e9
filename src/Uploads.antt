-- ===== src/Uploads.antt =====
-- Upload sessions and their files: api/bigrag/services/upload_sessions.py and the requests of
-- api/bigrag/routers/upload_sessions.py that end a session.
pub mod Items
pub mod Requests
pub mod Tallies
pub mod Counts
pub mod Persist
pub mod Ends
pub mod Cancel
pub mod Failures
mod Scenarios
use bigrag.Base.{
  ℕ, zero, suc, ◌+◌, String, Bool, true, false, ◌&&◌, ◌||◌, not, Option, none, some, List, [], ◌∷◌,
  map, text_eq, ltb, leb, ◌==◌, if◌then◌else◌, is_some, length, take,
}
use bigrag.Base.Text.{is_empty}
use bigrag.Ingest.Types.{DocumentStatus, pending, processing, ready}

-- The texts of the status columns of sessions and items, and those shown to a client.
pub data Status : Type 0 where
  preparing uploading queued ingesting complete failed canceled : Status

abbrev pub number : Status → ℕ
number preparing = 0
number uploading = 1
number queued = 2
number ingesting = 3
number complete = 4
number failed = 5
number canceled = 6

abbrev pub same : Status → Status → Bool
same a b = number a == number b

pub record UploadSessionItem : Type 0 where
  pub client_item_id : String
  pub document_id : Option String
  pub filename : String
  pub file_type : String
  pub file_size : ℕ
  pub content_hash : Option String
  pub storage_key : Option String
  pub status : Status
  pub error_message : Option String
  pub updated_at : ℕ

pub record UploadSession : Type 0 where
  pub id : ℕ
  pub collection_id : ℕ
  pub created_by : Option ℕ
  pub status : Status
  pub total_files : ℕ
  pub uploaded_files : ℕ
  pub queued_files : ℕ
  pub completed_files : ℕ
  pub failed_files : ℕ
  pub canceled_files : ℕ
  pub closed_at : Option ℕ

-- What the sessions read and write of a document.
pub record DocumentRow : Type 0 where
  pub id : String
  pub status : DocumentStatus
  pub error_message : Option String
  pub file_path : String

-- A row of the outer join.
abbrev pub Row : Type 0
Row = UploadSessionItem × Option DocumentStatus × Option String

unfoldable pub deleted_document_item : UploadSessionItem → Option DocumentStatus → Bool
deleted_document_item item document_status =
    not (is_some item.document_id) && not (is_some document_status)

abbrev pub by_document : Option DocumentStatus → Status
by_document (some ready) = complete
by_document (some DocumentStatus.failed) = failed
by_document (some processing) = ingesting
by_document (some pending) = queued
by_document none = queued

unfoldable pub effective_item_status : UploadSessionItem → Option DocumentStatus → Status
unfolding deleted_document_item
effective_item_status item document_status =
    if same item.status failed || same item.status canceled
    then item.status
    else if deleted_document_item item document_status
    then canceled
    else by_document document_status

-- `a or b` for texts that may be missing
abbrev pub or_text : Option String → Option String → Option String
or_text none b = b
or_text (some a) b = if is_empty a then b else some a

pub record ItemResponse : Type 0 where
  pub client_item_id : String
  pub document_id : Option String
  pub filename : String
  pub file_type : String
  pub file_size : ℕ
  pub content_hash : Option String
  pub status : Status
  pub document_status : Option DocumentStatus
  pub error_message : Option String

unfoldable pub item_response :
    UploadSessionItem → Option DocumentStatus → Option String → ItemResponse
unfolding effective_item_status
item_response item document_status document_error =
    let status = effective_item_status item document_status in
    let error_message = or_text item.error_message document_error in
    record {
      client_item_id = item.client_item_id;
      document_id = item.document_id;
      filename = item.filename;
      file_type = item.file_type;
      file_size = item.file_size;
      content_hash = item.content_hash;
      status = status;
      document_status = document_status;
      error_message =
          if same status canceled && deleted_document_item item document_status
          then or_text error_message (some "Document deleted")
          else error_message;
    }

-- The documents by their ids, as the outer join finds them.
unfoldable pub document_of : Option String → List DocumentRow → Option DocumentRow
document_of none documents = none
document_of (some id) [] = none
document_of (some id) (d ∷ documents) =
    if text_eq d.id id then some d else document_of (some id) documents

abbrev pub status_of : Option DocumentRow → Option DocumentStatus
status_of none = none
status_of (some d) = some d.status

abbrev pub error_of : Option DocumentRow → Option String
error_of none = none
error_of (some d) = d.error_message

unfoldable pub row_of : List DocumentRow → UploadSessionItem → Row
unfolding document_of
row_of documents item =
    let d = document_of item.document_id documents in (item, status_of d, error_of d)

unfoldable pub item_rank : Row → ℕ
item_rank (item, some pending, e) = 0
item_rank (item, some processing, e) = 0
item_rank (item, some DocumentStatus.failed, e) = 1
item_rank (item, some ready, e) =
    if same item.status failed || same item.status canceled then 1 else 2
item_rank (item, none, e) = if same item.status failed || same item.status canceled then 1 else 2

-- `ORDER BY item_rank, updated_at DESC`
unfoldable pub stands_before : Row → Row → Bool
unfolding item_rank
stands_before a b =
    ltb (item_rank a) (item_rank b)
    || ((item_rank a == item_rank b) && leb (b.0).updated_at (a.0).updated_at)

unfoldable pub place : Row → List Row → List Row
unfolding stands_before
place r [] = r ∷ []
place r (s ∷ rows) = let rest = place r rows in if stands_before r s then r ∷ s ∷ rows else s ∷ rest

unfoldable pub ordered : List Row → List Row
unfolding place
ordered [] = []
ordered (r ∷ rows) = place r (ordered rows)

unfoldable pub session_rows : List DocumentRow → List UploadSessionItem → List Row
unfolding ordered row_of
session_rows documents items = ordered (map (row_of documents) items)

pub record Tally : Type 0 where
  pub uploaded_files : ℕ
  pub queued_files : ℕ
  pub processing_files : ℕ
  pub completed_files : ℕ
  pub failed_files : ℕ
  pub canceled_files : ℕ

abbrev pub count_one : Status → Tally → Tally
count_one queued t = record t { queued_files = suc t.queued_files }
count_one ingesting t = record t { processing_files = suc t.processing_files }
count_one complete t = record t { completed_files = suc t.completed_files }
count_one failed t = record t { failed_files = suc t.failed_files }
count_one canceled t = record t { canceled_files = suc t.canceled_files }
count_one preparing t = t
count_one uploading t = t

unfoldable pub count_rows : List Row → Tally → Tally
count_rows [] t = t
count_rows (r ∷ rows) t = count_rows rows (count_one (effective_item_status r.0 r.1) t)

unfoldable pub session_counts : List Row → Tally
unfolding count_rows
session_counts rows = count_rows rows record {
  uploaded_files = length rows;
  queued_files = 0;
  processing_files = 0;
  completed_files = 0;
  failed_files = 0;
  canceled_files = 0;
}

unfoldable pub session_status_value : UploadSession → Tally → Status
session_status_value session t =
    if same session.status canceled
    then canceled
    else if ltb t.uploaded_files session.total_files
    then (if ltb 0 t.uploaded_files then uploading else preparing)
    else if ltb 0 (t.queued_files + t.processing_files)
    then ingesting
    else if (t.completed_files == 0) && (ltb 0 t.failed_files || ltb 0 t.canceled_files)
    then failed
    else complete
