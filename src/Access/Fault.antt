-- ===== src/Access/Fault.antt =====
-- What the access checks raise, and the HTTP status with which it reaches the client.
use bigrag.Base.{ℕ, String}

pub data Fault : Type 0 where
  authentication_required : Fault
  missing_scope : String → Fault
  session_required : Fault
  admin_required : Fault
  cross_collection : Fault
  wrong_collection : Fault
  reconfigure : Fault
  unscoped_access : Fault
  unscoped_write : Fault
  tenant_required : String → Fault
  document_not_found : Fault
  malformed_scopes : Fault
  redis_failed : Fault

-- The last two are an `AttributeError` and a Redis error that nothing catches.
-- `ForbiddenError` is 403 and `ValidationError` 400; an `HTTPException` carries its own status.
unfoldable pub status : Fault → ℕ
status authentication_required = 401
status (missing_scope s) = 403
status session_required = 403
status admin_required = 403
status cross_collection = 403
status wrong_collection = 403
status reconfigure = 403
status unscoped_access = 400
status unscoped_write = 400
status (tenant_required f) = 400
status document_not_found = 404
status malformed_scopes = 500
status redis_failed = 500
