-- ===== src/Access/Scenarios.antt =====
-- Requests, collections and principals, and the theorems of access at them.
use bigrag.Base.{String, ◌≡◌, ◌↔◌, ◌⊎◌, refl, true, false, none, some, [], ◌∷◌, arith}
use bigrag.Base.Text.{has_char, split, rstrip}
use bigrag.Base.Text.Partition.{joined}
use bigrag.Base.Json.{text, array, object, Items, Fields, end, field, insert}
use bigrag.Base.Result.{Result, ok, err}
use bigrag.Access.Fault.{Fault}
use bigrag.Access.Scopes.{path_matches, required_scope, scope_matches}
use bigrag.Access.Scopes.Grants.{Grants, scope_matches_iff}
use bigrag.Access.Scopes.Segments.{Fits, path_matches-Fits}
use bigrag.Access.Tenant.{
  tenant_field, principal_tenant_id, is_admin_org_global, enforce_tenant_filters,
  document_tenant_allowed, enforce_tenant_metadata,
}
use bigrag.Access.Tenant.Isolation.{Limited, tenant_filters-Limited, written_then_read}
use bigrag.Access.Session.{User, answered, Env, Store, auth_cache_set}
use bigrag.Access.Principal.{Request, hash_session_token}
use bigrag.Access.Collection.{enforce_collection_scope}
use bigrag.Access.Current.{
  find_session, bearer_key, user_from_session, user_from_api_key, usable_cookie,
  principal_from_cache, find_principal, any_grants, principal_has_scope, check_scope, check_pin,
  get_current_user,
}
use bigrag.Access.Current.Authorized.{Authorized, get_current_user-Authorized}
use bigrag.Access.Current.Backing.{Lasts, Backed}
use bigrag.Access.Current.Freshness.{get_current_user-Backed}
use bigrag.Access.Current.Served.{served_session_live}

abbrev env : Env
env = record {
  sha256 = λ s. s;
  hmac_sha256 = λ k s. k;
  isoformat = λ t. "2026-01-01";
  fromisoformat = λ s. none;
  is_uuid = λ s. true;
  peppers = [];
  auth_principal_cache_ttl = 60;
  connected = true;
  answers = λ call. true;
  runs_set = λ key. true;
  set_delay = λ key. 20;
  throttle_reply = answered;
  now = 1000;
}

abbrev ada : User
ada = record { id = "u1"; email = "ada@example.org"; display_name = "Ada"; role = "admin" }

abbrev store : Store
store = record {
  sessions = record { token_hash = "cookie"; expires_at = 500000; user = ada } ∷ [];
  api_keys =
      record {
        id = "k1";
        name = "reader";
        key_hash = "bigrag_sk_1";
        active = true;
        expires_at = none;
        last_used_at = none;
        permissions = object (
            field "scopes" (array (Items.cons (text "query:read") Items.nil))
              (field "collection" (text "docs") end));
        user = ada;
      }
      ∷ [];
  cache = [];
  throttles = [];
  request_user = none;
}

abbrev by_cookie : Request
by_cookie = record {
  method = "GET";
  path = "/v1/collections";
  cookie = some "cookie";
  authorization = "";
}

abbrev by_key : Request
by_key = record {
  method = "POST";
  path = "/v1/collections/docs/query";
  cookie = none;
  authorization = "Bearer bigrag_sk_1";
}

-- The principal that a result carries.
abbrev principal_of : Result Fault Fields → Fields
principal_of (ok p) = p
principal_of (err e) = end

abbrev key_principal : Fields
unfolding get_current_user
key_principal = principal_of (get_current_user env by_key store).0

key_returned : (get_current_user env by_key store).0 ≡ ok key_principal
unfolding get_current_user find_principal principal_from_cache user_from_session user_from_api_key
    auth_cache_set check_scope required_scope principal_has_scope any_grants scope_matches check_pin
    enforce_collection_scope
key_returned = refl

get_current_user-Authorized_example : Authorized by_key key_principal
get_current_user-Authorized_example =
    get_current_user-Authorized env by_key store key_principal key_returned

get_current_user-Backed_example : Backed 30 (get_current_user env by_cookie store).1
get_current_user-Backed_example =
    get_current_user-Backed 30 env (λ key. omega arith) by_cookie store tt

abbrev cookie_principal : Fields
unfolding get_current_user
cookie_principal = principal_of (get_current_user env by_cookie store).0

cookie_returned : (get_current_user env by_cookie store).0 ≡ ok cookie_principal
unfolding get_current_user find_principal principal_from_cache user_from_session user_from_api_key
    auth_cache_set check_scope check_pin find_session
cookie_returned = refl

no_bearer : bearer_key by_cookie.authorization ≡ none
unfolding bearer_key
no_bearer = refl

served_session_live_example :
    (c : String) × (usable_cookie env by_cookie ≡ some c)
    × Lasts (hash_session_token env c) 1001 store.sessions
served_session_live_example =
    served_session_live env by_cookie store cookie_principal no_bearer tt cookie_returned

abbrev docs : Fields
docs = field "tenant_field" (text "org") end

abbrev of_acme : Fields
of_acme = field "role" (text "member") (field "tenant_id" (text "acme") end)

abbrev without_tenant : Fields
without_tenant = field "role" (text "member") end

docs_field : tenant_field docs ≡ some "org"
unfolding tenant_field
docs_field = refl

acme_tenant : principal_tenant_id (some of_acme) ≡ some "acme"
unfolding principal_tenant_id
acme_tenant = refl

no_tenant : principal_tenant_id (some without_tenant) ≡ none
unfolding principal_tenant_id
no_tenant = refl

abbrev other_org : Fields
other_org = field "org" (text "globex") (field "year" (text "2026") end)

tenant_filters-Limited_example :
    (d : Fields) × (enforce_tenant_filters docs (some other_org) (some of_acme) ≡ ok (some d))
    × Limited "org" "acme" (some other_org) d
tenant_filters-Limited_example =
    tenant_filters-Limited docs (some other_org) (some of_acme) "org" "acme" docs_field acme_tenant

abbrev stored_metadata : Fields
stored_metadata = field "org" (text "acme") (field "year" (text "2026") end)

acme_stored : enforce_tenant_metadata docs other_org (some of_acme) ≡ ok stored_metadata
unfolding enforce_tenant_metadata insert
acme_stored = refl

written_then_read_example :
    (document_tenant_allowed without_tenant docs (some stored_metadata) ≡ true) ↔ (
      (is_admin_org_global (some without_tenant) ≡ true)
      ⊎ (principal_tenant_id (some without_tenant) ≡ some "acme"))
written_then_read_example =
    written_then_read docs other_org stored_metadata of_acme without_tenant "org" "acme" docs_field
      acme_tenant acme_stored

no_colon : has_char b':' "query" ≡ false
unfolding has_char
no_colon = refl

scope_matches_iff_example :
    (scope_matches "query:*" (joined "query" "read") ≡ true) ↔ Grants "query" "read" "query:*"
scope_matches_iff_example = scope_matches_iff "query" "read" "query:*" no_colon (λ e. cc) (λ e. cc)

has_parameter : has_char b'{' "/v1/collections/{name}" ≡ true
unfolding has_char
has_parameter = refl

path_matches-Fits_example :
    (path_matches "/v1/collections/docs/" "/v1/collections/{name}" ≡ true)
    ↔ Fits
        (split b'/' (rstrip b'/' "/v1/collections/{name}"))
        (split b'/' (rstrip b'/' "/v1/collections/docs/"))
path_matches-Fits_example =
    path_matches-Fits "/v1/collections/docs/" "/v1/collections/{name}" has_parameter
