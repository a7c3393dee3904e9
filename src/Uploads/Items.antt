-- ===== src/Uploads/Items.antt =====
-- Items as upload_session_items.py writes them.
use bigrag.Base.{ℕ, String, Option, none, List, [], ◌∷◌, text_eq, if◌then◌else◌}
use bigrag.Base.Text.{lstrip}
use bigrag.Uploads.{Status, queued, UploadSessionItem}

-- `fail_item`: the item with this key is overwritten, or a new one is added.
pub record Upload : Type 0 where
  pub client_item_id : String
  pub filename : String
  pub file_ext : String
  pub file_size : ℕ
  pub content_hash : Option String

unfoldable pub overwrite :
    ℕ → Upload → Status → Option String → UploadSessionItem → UploadSessionItem
overwrite now u status error item = record item {
  filename = u.filename;
  file_type = lstrip b'.' u.file_ext;
  file_size = u.file_size;
  content_hash = u.content_hash;
  status = status;
  error_message = error;
  updated_at = now;
}

abbrev pub new_item : String → UploadSessionItem
new_item key = record {
  client_item_id = key;
  document_id = none;
  filename = "";
  file_type = "";
  file_size = 0;
  content_hash = none;
  storage_key = none;
  status = queued;
  error_message = none;
  updated_at = 0;
}

unfoldable pub write_item :
    String
    → (UploadSessionItem → UploadSessionItem)
    → List UploadSessionItem
    → List UploadSessionItem
write_item key change [] = change (new_item key) ∷ []
write_item key change (item ∷ items) =
    let rest = write_item key change items in
    if text_eq item.client_item_id key then change item ∷ items else item ∷ rest
