-- ===== src/Uploads/Ends.antt =====
-- How a session ends: cancel_upload_session, complete_upload_session, and failed uploads.
use bigrag.Base.{ℕ, ◌≡◌, Bool, true, String, some, List, [], ◌∷◌}
use bigrag.Base.Result.{Result, ok, err}
use bigrag.Uploads.{canceled, same}
use bigrag.Uploads.Requests.{
  Uploading, UploadSessionResponse, upload_session_response, reserve_item, failure_response,
  complete_upload_session, cancel_upload_session,
}
use bigrag.Uploads.Items.{Upload}

-- What can happen to a session after it was created.
pub data Request : Type 0 where
  report_counts : ℕ → Request
  upload_fails : ℕ → Upload → String → Request
  upload_reserves : ℕ → Upload → Request
  completes : ℕ → Request
  cancels : (String → Bool) → ℕ → Request

abbrev after_result : Uploading → Result ℕ (UploadSessionResponse × Uploading) → Uploading
after_result s (ok r) = r.1
after_result s (err status) = s

unfoldable pub handle : Request → Uploading → Uploading
handle (report_counts now) s = (upload_session_response true now s).1
handle (upload_fails now u message) s = (failure_response now u message s).1
handle (upload_reserves now u) s = reserve_item now u s
handle (completes now) s = after_result s (complete_upload_session now s)
handle (cancels deleted now) s = cancel_upload_session deleted now s

abbrev pub handle_all : List Request → Uploading → Uploading
handle_all [] s = s
handle_all (r ∷ requests) s = handle_all requests (handle r s)

-- Closed at a time, and canceled.
abbrev pub IsClosed : ℕ → Uploading → Type 0
IsClosed t s = s.session.closed_at ≡ some t

abbrev pub IsCanceled : Uploading → Type 0
IsCanceled s = same s.session.status canceled ≡ true
