-- ===== src/Access/Tenant.antt =====
-- Tenants inside one collection: api/bigrag/services/tenant_enforcement.py.
pub mod Isolation
use bigrag.Base.{String, Bool, true, false, ◌&&◌, not, Option, none, some, if◌then◌else◌}
use bigrag.Base.Text.{is_empty}
use bigrag.Base.Json.{
  Value, null, text, object, Fields, end, field, lookup, insert, nonempty_text, is_text, truthy,
  truthy_fields,
}
use bigrag.Base.Result.{Result, ok, err, ◌>>◌}
use bigrag.Access.Fault.{
  Fault, unscoped_access, unscoped_write, tenant_required, document_not_found,
}

unfoldable pub tenant_field : Fields → Option String
unfolding lookup
tenant_field collection = nonempty_text (lookup "tenant_field" collection)

-- `None` and the empty dictionary are no principal.
unfoldable pub principal_tenant_id : Option Fields → Option String
unfolding lookup
principal_tenant_id none = none
principal_tenant_id (some principal) =
    if not (truthy_fields principal) then none else nonempty_text (lookup "tenant_id" principal)

unfoldable pub is_admin_org_global : Option Fields → Bool
unfolding lookup truthy
is_admin_org_global none = false
is_admin_org_global (some principal) =
    if not (truthy_fields principal)
    then false
    else is_text (lookup "role" principal) "admin"
      && not (is_text (lookup "auth_method" principal) "api_key")
      && not (truthy (lookup "collection" principal))

-- `dict(filters) if isinstance(filters, dict) else {}`
abbrev pub as_fields : Option Fields → Fields
as_fields none = end
as_fields (some d) = d

-- `{"$eq": tenant}`
abbrev pub equals : String → Value
equals tenant = object (field "$eq" (text tenant) end)

-- By the collection's tenant field and the principal's tenant.
abbrev filters_for :
    Option String → Option String → Bool → Option Fields → Result Fault (Option Fields)
filters_for none tenant admin filters = ok filters
filters_for (some f) (some tenant) admin filters =
    ok (some (insert f (equals tenant) (as_fields filters)))
filters_for (some f) none admin filters = if admin then ok filters else err unscoped_access

unfoldable pub enforce_tenant_filters :
    Fields → Option Fields → Option Fields → Result Fault (Option Fields)
unfolding tenant_field principal_tenant_id is_admin_org_global
enforce_tenant_filters collection filters principal =
    filters_for (tenant_field collection) (principal_tenant_id principal)
      (is_admin_org_global principal) filters

-- `(doc_meta or {}).get(field) if doc_meta else None`
abbrev pub document_value : String → Option Fields → Option Value
document_value f none = none
document_value f (some meta) = lookup f meta

abbrev pub allowed_for : Option String → Bool → Option String → Option Fields → Bool
allowed_for none admin tenant doc_meta = true
allowed_for (some f) true tenant doc_meta = true
allowed_for (some f) false none doc_meta = false
allowed_for (some f) false (some tenant) doc_meta = is_text (document_value f doc_meta) tenant

unfoldable pub document_tenant_allowed : Fields → Fields → Option Fields → Bool
unfolding tenant_field is_admin_org_global principal_tenant_id
document_tenant_allowed principal collection doc_meta =
    allowed_for (tenant_field collection) (is_admin_org_global (some principal))
      (principal_tenant_id (some principal)) doc_meta

unfoldable pub enforce_document_tenant_access :
    Fields → Fields → Option Fields → Result Fault (Unit {0})
unfolding document_tenant_allowed
enforce_document_tenant_access principal collection doc_meta =
    if not (document_tenant_allowed principal collection doc_meta)
    then err document_not_found
    else ok tt

-- `value is None or value == ""`
abbrev pub is_missing : Option Value → Bool
is_missing none = true
is_missing (some null) = true
is_missing (some (text s)) = is_empty s
is_missing (some _) = false

abbrev pub require_field : Option String → Fields → Result Fault (Unit {0})
require_field none metadata = ok tt
require_field (some f) metadata =
    if is_missing (lookup f metadata) then err (tenant_required f) else ok tt

unfoldable pub require_tenant_metadata : Fields → Fields → Result Fault (Unit {0})
unfolding tenant_field
require_tenant_metadata collection metadata = require_field (tenant_field collection) metadata

abbrev pub metadata_for :
    Option String → Option String → Bool → Fields → Fields → Result Fault Fields
metadata_for none tenant admin collection metadata = ok metadata
metadata_for (some f) (some tenant) admin collection metadata = ok (insert f (text tenant) metadata)
metadata_for (some f) none true collection metadata = do
  require_tenant_metadata collection metadata
  ok metadata
metadata_for (some f) none false collection metadata = err unscoped_write

unfoldable pub enforce_tenant_metadata : Fields → Fields → Option Fields → Result Fault Fields
unfolding tenant_field principal_tenant_id is_admin_org_global require_tenant_metadata
enforce_tenant_metadata collection metadata principal =
    metadata_for (tenant_field collection) (principal_tenant_id principal)
      (is_admin_org_global principal) collection metadata
