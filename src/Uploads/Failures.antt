-- ===== src/Uploads/Failures.antt =====
-- What becomes of an upload that failed: failure_response.
use bigrag.Base.{
  ℕ, ◌≡◌, refl, ap, Bool, eq_iff, keep, true, false, String, some, List, [], ◌∷◌, map, Bool-cases,
  inl, inr, All, text_eq, arith,
}
use bigrag.Uploads.{
  Status, failed, canceled, UploadSessionItem, DocumentRow, document_of, deleted_document_item,
}
use bigrag.Uploads.Requests.{
  Uploading, mark_deleted, persist_counts, upload_session_response, fail_item, failure_response,
}
use bigrag.Uploads.Items.{Upload, overwrite, new_item, write_item}
use bigrag.Uploads.Persist.{is_orphan}

abbrev pub has_key : String → UploadSessionItem → Bool
has_key key item = text_eq item.client_item_id key

abbrev pub status_of_item : UploadSessionItem → Status
status_of_item item = item.status

-- There is one item with this key, and it is canceled.
abbrev pub IsGivenUp : String → List UploadSessionItem → Type 0
IsGivenUp key items = map status_of_item (keep (has_key key) items) ≡ canceled ∷ []

mark_deleted-key :
    (now : ℕ) (documents : List DocumentRow) (item : UploadSessionItem)
    → (mark_deleted now documents item).client_item_id ≡ item.client_item_id
unfolding mark_deleted
mark_deleted-key now documents item = elim (Bool-cases (is_orphan documents item)) [
  | inl y ↦ rw y refl
  | inr n ↦ rw n refl
]

mark_deleted-has_key :
    (key : String) (now : ℕ) (documents : List DocumentRow) (item : UploadSessionItem)
    → has_key key (mark_deleted now documents item) ≡ has_key key item
mark_deleted-has_key key now documents item =
    ap (λ i. text_eq i key) (mark_deleted-key now documents item)

marked-canceled :
    (now : ℕ) (documents : List DocumentRow) (item : UploadSessionItem)
    → is_orphan documents item ≡ true
    → (mark_deleted now documents item).status ≡ canceled
unfolding mark_deleted
marked-canceled now documents item h = rw h refl

new_item-orphan :
    (documents : List DocumentRow) (now : ℕ) (u : Upload) (status : Status) (message : String)
    → is_orphan documents (overwrite now u status (some message) (new_item u.client_item_id)) ≡ true
unfolding overwrite document_of deleted_document_item
new_item-orphan documents now u status message = refl

new_item-has_key :
    (now : ℕ) (u : Upload) (message : String)
    → has_key u.client_item_id (overwrite now u failed (some message) (new_item u.client_item_id))
      ≡ true
unfolding overwrite
new_item-has_key now u message = ground (arith, eq_iff u.client_item_id u.client_item_id)

write_item-IsGivenUp :
    (now : ℕ) (documents : List DocumentRow) (u : Upload) (message : String)
    (items : List UploadSessionItem)
    → All (λ item. has_key u.client_item_id item ≡ false) items
    → IsGivenUp u.client_item_id (
        map
          (mark_deleted now documents)
          (write_item u.client_item_id (overwrite now u failed (some message)) items))
unfolding write_item
write_item-IsGivenUp now documents u message [] h =
    let item = overwrite now u failed (some message) (new_item u.client_item_id) in
    rw (mark_deleted-has_key u.client_item_id now documents item, new_item-has_key now u message)
      (ap (λ s. s ∷ [])
        (marked-canceled now documents item (new_item-orphan documents now u failed message)))
write_item-IsGivenUp now documents u message (item ∷ items) h = rw (h.0) (
    rw (mark_deleted-has_key u.client_item_id now documents item, h.0)
      (write_item-IsGivenUp now documents u message items h.1))

-- If no item of the session has the key of a failed upload yet, then after the response on the
-- failure the session has exactly one item with this key, and it is canceled, not failed, since it
-- has no document.
pub failure_response-IsGivenUp :
    (now : ℕ) (u : Upload) (message : String) (s : Uploading)
    → All (λ item. has_key u.client_item_id item ≡ false) s.items
    → IsGivenUp u.client_item_id (failure_response now u message s).1.items
unfolding failure_response upload_session_response persist_counts fail_item
failure_response-IsGivenUp now u message s h =
    write_item-IsGivenUp now s.documents u message s.items h
