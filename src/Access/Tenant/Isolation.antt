-- ===== src/Access/Tenant/Isolation.antt =====
-- Tenants of one collection are kept apart, when searching and between a write and a read.
use bigrag.Base.{
  String, ◌≡◌, ◌≢◌, ◌↔◌, ◌⊎◌, inl, inr, refl, Bool, true, false, Option, none, some, eq_iff, arith,
}
use bigrag.Base.Json.{Fields, text, lookup, insert, lookup-insert}
use bigrag.Base.Result.{ok}
use bigrag.Access.Tenant.{
  tenant_field, principal_tenant_id, is_admin_org_global, as_fields, equals, enforce_tenant_filters,
  enforce_tenant_metadata, document_tenant_allowed, allowed_for, metadata_for,
}

-- What a search by a principal of tenant `t` is limited to.
pub record Limited (f t : String) (filters : Option Fields) (d : Fields) : Type 0 where
  pub forced : lookup f d ≡ some (equals t)
  pub rest : (k : String) → k ≢ f → lookup k d ≡ lookup k (as_fields filters)

-- In a collection with a tenant field, a principal with a tenant searches with that tenant's
-- condition on the field, whatever filters the request had; its other filters are unchanged.
pub tenant_filters-Limited :
    (collection : Fields) (filters : Option Fields) (principal : Option Fields) (f t : String)
    → tenant_field collection ≡ some f
    → principal_tenant_id principal ≡ some t
    → (d : Fields) × (enforce_tenant_filters collection filters principal ≡ ok (some d))
      × Limited f t filters d
unfolding enforce_tenant_filters
tenant_filters-Limited collection filters principal f t hf ht = (
  insert f (equals t) (as_fields filters),
  ground (arith, hf, ht),
  record {
    forced = ground (arith, lookup-insert f f (equals t) (as_fields filters), eq_iff f f);
    rest = λ k ne. ground (arith, lookup-insert f k (equals t) (as_fields filters), eq_iff f k);
  },
)

document_tenant_allowed_lem :
    (reader collection : Fields) (doc_meta : Option Fields)
    → document_tenant_allowed reader collection doc_meta
      ≡ allowed_for
          (tenant_field collection)
          (is_admin_org_global (some reader))
          (principal_tenant_id (some reader))
          doc_meta
unfolding document_tenant_allowed
document_tenant_allowed_lem reader collection doc_meta = refl

enforce_tenant_metadata_lem :
    (collection metadata : Fields) (writer : Option Fields)
    → enforce_tenant_metadata collection metadata writer
      ≡ metadata_for
          (tenant_field collection)
          (principal_tenant_id writer)
          (is_admin_org_global writer)
          collection
          metadata
unfolding enforce_tenant_metadata
enforce_tenant_metadata_lem collection metadata writer = refl

allowed_tenant :
    (f t : String) (admin : Bool) (tenant : Option String) (stored : Fields)
    → lookup f stored ≡ some (text t)
    → (allowed_for (some f) admin tenant (some stored) ≡ true)
      ↔ ((admin ≡ true) ⊎ (tenant ≡ some t))
allowed_tenant f t true tenant stored h = (λ _. inl refl, λ _. refl)
allowed_tenant f t false none stored h = (λ e. cc, λ e. ground arith)
allowed_tenant f t false (some u) stored h =
    (λ e. inr (ground (arith, eq_iff t u)), λ e. ground (arith, eq_iff t u))

-- A document that a principal of tenant `t` has written is shown to exactly the principals of
-- tenant `t` and the organisation's administrators, whatever tenant its metadata claimed.
pub written_then_read :
    (collection metadata stored writer reader : Fields) (f t : String)
    → tenant_field collection ≡ some f
    → principal_tenant_id (some writer) ≡ some t
    → enforce_tenant_metadata collection metadata (some writer) ≡ ok stored
    → (document_tenant_allowed reader collection (some stored) ≡ true)
      ↔ ((is_admin_org_global (some reader) ≡ true) ⊎ (principal_tenant_id (some reader) ≡ some t))
written_then_read collection metadata stored writer reader f t hf ht hs =
    rw (document_tenant_allowed_lem reader collection (some stored), hf)
      (allowed_tenant f t (is_admin_org_global (some reader)) (principal_tenant_id (some reader))
        stored stored_tenant)
  where
    stored_tenant : lookup f stored ≡ some (text t)
    stored_tenant = ground (
      arith,
      enforce_tenant_metadata_lem collection metadata (some writer),
      lookup-insert f f (text t) metadata,
      eq_iff f f,
    )
