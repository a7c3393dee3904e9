-- ===== src/Uploads/Scenarios.antt =====
-- A session of three files: one is ready, one waits, and one was never stored.
use bigrag.Base.{◌≡◌, refl, true, false, String, Option, none, some, List, [], ◌∷◌, length, All}
use bigrag.Ingest.Types.{pending, ready}
use bigrag.Uploads.{
  Status, preparing, queued, ingesting, complete, failed, canceled, UploadSessionItem, DocumentRow,
  session_counts, session_rows,
}
use bigrag.Uploads.Requests.{
  Uploading, upload_session_response, response_of, failure_response, cancel_upload_session,
  is_active,
}
use bigrag.Uploads.Items.{Upload}
use bigrag.Uploads.Counts.{items_with, session_counts-items}
use bigrag.Uploads.Tallies.{total}
use bigrag.Uploads.Persist.{IsStored, effective, upload_session_response-IsStored}
use bigrag.Uploads.Cancel.{cancel_upload_session-over}
use bigrag.Uploads.Failures.{IsGivenUp, failure_response-IsGivenUp}

abbrev file_item : String → Option String → Status → UploadSessionItem
file_item key document status = record {
  client_item_id = key;
  document_id = document;
  filename = "report.pdf";
  file_type = "pdf";
  file_size = 10;
  content_hash = none;
  storage_key = none;
  status = status;
  error_message = none;
  updated_at = 1;
}

abbrev three_items : List UploadSessionItem
three_items =
    file_item "a" (some "1") queued
    ∷ file_item "b" (some "2") queued
    ∷ file_item "c" none queued
    ∷ []

abbrev two_documents : List DocumentRow
two_documents =
    record { id = "1"; status = ready; error_message = none; file_path = "x" }
    ∷ record { id = "2"; status = pending; error_message = none; file_path = "y" }
    ∷ []

abbrev three_files : Uploading
three_files = record {
  session = record {
    id = 1;
    collection_id = 1;
    created_by = none;
    status = preparing;
    total_files = 3;
    uploaded_files = 0;
    queued_files = 0;
    completed_files = 0;
    failed_files = 0;
    canceled_files = 0;
    closed_at = none;
  };
  items = three_items;
  documents = two_documents;
  told = [];
}

abbrev broken : Upload
broken = record {
  client_item_id = "d";
  filename = "broken.pdf";
  file_ext = ".pdf";
  file_size = 3;
  content_hash = none;
}

session_counts-items_example :
    let t = session_counts (session_rows two_documents three_items) in
    (t.queued_files ≡ items_with queued two_documents three_items)
    × (t.processing_files ≡ items_with ingesting two_documents three_items)
    × (t.completed_files ≡ items_with complete two_documents three_items)
    × (t.failed_files ≡ items_with failed two_documents three_items)
    × (t.canceled_files ≡ items_with canceled two_documents three_items)
    × (t.uploaded_files ≡ length three_items)
    × (total t ≡ length three_items)
session_counts-items_example = session_counts-items two_documents three_items

upload_session_response-IsStored_example :
    let (shown, after) = upload_session_response true 5 three_files in
    let (plain, before) = upload_session_response false 5 three_files in
    (shown.counts ≡ plain.counts) × (shown.status ≡ plain.status) × IsStored after.session shown
upload_session_response-IsStored_example =
    upload_session_response-IsStored 5 three_files (refl, (refl, (refl, tt)))

cancel_upload_session-over_example :
    let after = cancel_upload_session (λ path. true) 5 three_files in
    All (λ item. is_active (effective after.documents item) ≡ false) after.items
    × ((response_of after).active_files ≡ 0)
    × ((response_of after).status ≡ canceled)
cancel_upload_session-over_example = cancel_upload_session-over (λ path. true) 5 three_files

failure_response-IsGivenUp_example :
    IsGivenUp "d" (failure_response 5 broken "upload failed" three_files).1.items
failure_response-IsGivenUp_example =
    failure_response-IsGivenUp 5 broken "upload failed" three_files (refl, (refl, (refl, tt)))
