-- ===== src/Access/Current.antt =====
-- `get_current_user` and what it runs through: api/bigrag/middleware/auth.py.
pub mod Authorized
pub mod Backing
pub mod Freshness
pub mod Served
use bigrag.Base.{
  ℕ, String, Bool, true, false, ◌&&◌, not, Option, none, some, List, [], ◌∷◌, text_eq, ltb,
  if◌then◌else◌, any_of,
}
use bigrag.Base.Text.{starts_with, drop_text}
use bigrag.Base.Json.{
  Value, null, boolean, text, array, object, Items, nil, cons, Fields, lookup, insert, as_text,
  nonempty, nonempty_text, is_text,
}
use bigrag.Base.Result.{Result, ok, err}
use bigrag.Base.Exec.{pure, raise, lift, gets, modify, ◌>>=◌, ◌>>◌, when}
use bigrag.Access.Fault.{
  Fault, authentication_required, missing_scope, malformed_scopes, session_required, admin_required,
}
use bigrag.Access.Scopes.{scope_matches, required_scope}
use bigrag.Access.Collection.{enforce_collection_scope}
use bigrag.Access.Session.{
  UserSession, ApiKey, Env, Auth, session_cache_key, api_key_cache_key, auth_cache_get,
  auth_cache_set, auth_cache_delete,
}
use bigrag.Access.Principal.{
  Request, api_key_prefix, hash_session_token, api_key_hashes_for_lookup, ttl_until, serialize,
  is_api_key_principal, parse_iso, principal_revoked, touch_api_key_last_used,
}

-- `SELECT … WHERE token_hash = … AND expires_at > now`, the first row
unfoldable pub find_session : ℕ → String → List UserSession → Option UserSession
find_session now token_hash [] = none
find_session now token_hash (r ∷ rs) =
    if text_eq r.token_hash token_hash && ltb now r.expires_at
    then some r
    else find_session now token_hash rs

abbrev not_expired : ℕ → Option ℕ → Bool
not_expired now none = true
not_expired now (some t) = ltb now t

-- `SELECT … WHERE key_hash IN … AND active AND (expires_at IS NULL OR expires_at > now)`
unfoldable pub find_api_key : ℕ → List String → List ApiKey → Option ApiKey
find_api_key now key_hashes [] = none
find_api_key now key_hashes (k ∷ ks) =
    if any_of (λ h. text_eq h k.key_hash) key_hashes && k.active && not_expired now k.expires_at
    then some k
    else find_api_key now key_hashes ks

-- `auth_header[7:]` after "Bearer ", if it starts with the prefix of a key
unfoldable pub bearer_key : String → Option String
unfolding starts_with drop_text
bearer_key header =
    if not (starts_with header "Bearer ")
    then none
    else let token = drop_text header "Bearer " in
      if not (starts_with token api_key_prefix) then none else some token

-- `permissions.get(k) if isinstance(permissions, dict) else None`; a falsy value counts as `{}`.
abbrev permission : String → Value → Option Value
permission k (object d) = lookup k d
permission k _ = none

abbrev list_or_null : Option Value → Value
list_or_null (some (array xs)) = array xs
list_or_null _ = null

abbrev text_or_null : Option String → Value
text_or_null none = null
text_or_null (some s) = text s

abbrev iso_or_null : (ℕ → String) → Option ℕ → Value
iso_or_null isoformat none = null
iso_or_null isoformat (some t) = text (isoformat t)

module _ (env : Env) where
  -- The principal that `_user_from_api_key` builds from a row.
  unfoldable pub api_key_principal : ApiKey → Fields
  unfolding serialize lookup insert
  api_key_principal k = insert "last_used_at" (iso_or_null env.isoformat k.last_used_at) (
      insert "expires_at" (iso_or_null env.isoformat k.expires_at) (
        insert "active" (boolean k.active) (
          insert "tenant_id" (text_or_null (nonempty_text (permission "tenant" k.permissions))) (
            insert "collection"
              (text_or_null (nonempty_text (permission "collection" k.permissions)))
              (insert "scopes" (list_or_null (permission "scopes" k.permissions))
                (insert "api_key_name" (text k.name) (serialize k.user "api_key" (some k.id))))))))

  abbrev pub cache_session : String → UserSession → Fields → Auth (Option Fields)
  cache_session token_hash row principal = do
    let ttl = ttl_until env (some row.expires_at)
    when (ltb 0 ttl) (auth_cache_set env (session_cache_key token_hash) (object principal) ttl)
    pure (some principal)

  abbrev pub session_row : String → Option UserSession → Auth (Option Fields)
  session_row token_hash none = pure none
  session_row token_hash (some row) =
      cache_session token_hash row (serialize row.user "session" none)

  abbrev pub session_by_cookie : Option String → Auth (Option Fields)
  session_by_cookie none = pure none
  session_by_cookie (some cookie) = do
    let token_hash = hash_session_token env cookie
    row ← gets (λ s. find_session env.now token_hash s.sessions)
    session_row token_hash row

  abbrev pub usable_cookie : Request → Option String
  usable_cookie request = elim request.cookie [ none ↦ none | some c ↦ nonempty c ]

  -- `_user_from_session`
  unfoldable pub user_from_session : Request → Auth (Option Fields)
  user_from_session request = session_by_cookie (usable_cookie request)

  unfoldable pub cache_under : List String → Fields → ℕ → Auth Unit
  cache_under [] principal ttl = pure tt
  cache_under (h ∷ hs) principal ttl = do
    auth_cache_set env (api_key_cache_key h) (object principal) ttl
    cache_under hs principal ttl

  abbrev pub api_key_row : List String → Option ApiKey → Auth (Option Fields)
  api_key_row key_hashes none = pure none
  api_key_row key_hashes (some k) = do
    touch_api_key_last_used env (some k.id) k.last_used_at
    let ttl = ttl_until env k.expires_at
    when (ltb 0 ttl) (cache_under key_hashes (api_key_principal k) ttl)
    pure (some (api_key_principal k))

  abbrev pub api_key_by_token : Option String → Auth (Option Fields)
  api_key_by_token none = pure none
  api_key_by_token (some token) = do
    let key_hashes = api_key_hashes_for_lookup env token
    row ← gets (λ s. find_api_key env.now key_hashes s.api_keys)
    api_key_row key_hashes row

  -- `_user_from_api_key`
  unfoldable pub user_from_api_key : Request → Auth (Option Fields)
  unfolding bearer_key api_key_hashes_for_lookup find_api_key touch_api_key_last_used ttl_until
      cache_under api_key_principal
  user_from_api_key request = api_key_by_token (bearer_key request.authorization)

  abbrev pub cached_api_key : String → Fields → Auth (Option Fields)
  cached_api_key key_hash cached =
      if principal_revoked env cached
      then (auth_cache_delete env (api_key_cache_key key_hash) >> pure none)
      else (do
        touch_api_key_last_used env (as_text (lookup "api_key_id" cached))
            (parse_iso env (lookup "last_used_at" cached))
        pure (some cached))

  -- The first cached dictionary decides; anything else leaves it to the next hash.
  abbrev pub if_cached : String → Auth (Option Fields) → Option Value → Auth (Option Fields)
  if_cached key_hash next (some (object d)) = cached_api_key key_hash d
  if_cached key_hash next _ = next

  -- The loop over the hashes.
  unfoldable pub from_cached_hashes : List String → Auth (Option Fields)
  unfolding api_key_cache_key auth_cache_get principal_revoked auth_cache_delete
      touch_api_key_last_used lookup parse_iso
  from_cached_hashes [] = pure none
  from_cached_hashes (h ∷ hs) = do
    cached ← auth_cache_get env (api_key_cache_key h)
    if_cached h (from_cached_hashes hs) cached

  abbrev pub from_cached_token : Option String → Auth (Option Fields)
  from_cached_token none = pure none
  from_cached_token (some token) = from_cached_hashes (api_key_hashes_for_lookup env token)

  abbrev pub after_cookie : Option String → Option Value → Auth (Option Fields)
  after_cookie token (some (object d)) = pure (some d)
  after_cookie token _ = from_cached_token token

  abbrev pub cached_session : Option String → Auth (Option Value)
  cached_session none = pure none
  cached_session (some cookie) =
      auth_cache_get env (session_cache_key (hash_session_token env cookie))

  -- `_principal_from_cache`
  unfoldable pub principal_from_cache : Request → Auth (Option Fields)
  unfolding session_cache_key hash_session_token auth_cache_get bearer_key api_key_hashes_for_lookup
      from_cached_hashes
  principal_from_cache request = do
    cached ← cached_session (usable_cookie request)
    after_cookie (bearer_key request.authorization) cached

  abbrev pub or_else : Option Fields → Auth (Option Fields) → Auth (Option Fields)
  or_else (some p) next = pure (some p)
  or_else none next = next

  -- The cache, then the session, then the API key.
  unfoldable pub find_principal : Request → Auth (Option Fields)
  find_principal request = do
    cached ← principal_from_cache request
    by_session ← or_else cached (user_from_session request)
    or_else by_session (user_from_api_key request)

-- `any(scope_matches(g, required) for g in granted)` over the cached JSON.
unfoldable pub any_grants : Items → String → Result Fault Bool
any_grants nil required = ok false
any_grants (cons v vs) required =
    let rest = any_grants vs required in
    elim v [
      | text g ↦ (if scope_matches g required then ok true else rest)
      | _ ↦ err malformed_scopes
    ]

-- `has_scope(principal.get("scopes"), scope)`: `null` and the empty list grant everything.
unfoldable pub principal_has_scope : Option Value → String → Result Fault Bool
principal_has_scope none required = ok true
principal_has_scope (some null) required = ok true
principal_has_scope (some (array nil)) required = ok true
principal_has_scope (some (array (cons v vs))) required = any_grants (cons v vs) required
principal_has_scope (some _) required = err malformed_scopes

abbrev granted_or_raise : String → Result Fault Bool → Result Fault (Unit {0})
granted_or_raise scope (ok true) = ok tt
granted_or_raise scope (ok false) = err (missing_scope scope)
granted_or_raise scope (err e) = err e

abbrev check_required : Fields → Option String → Result Fault (Unit {0})
check_required principal none = ok tt
check_required principal (some scope) =
    granted_or_raise scope (principal_has_scope (lookup "scopes" principal) scope)

-- The scope check of `get_current_user`, made for API keys alone.
unfoldable pub check_scope : Request → Fields → Result Fault (Unit {0})
check_scope request principal =
    if is_api_key_principal principal
    then check_required principal (required_scope request.method request.path)
    else ok tt

abbrev enforce_pin : Request → Option String → Result Fault (Unit {0})
enforce_pin request none = ok tt
enforce_pin request (some pinned) = enforce_collection_scope request.method request.path pinned

-- A principal's collection is `null` or a text, as `_user_from_api_key` writes it.
unfoldable pub check_pin : Request → Fields → Result Fault (Unit {0})
check_pin request principal = enforce_pin request (nonempty_text (lookup "collection" principal))

module _ (env : Env) where
  abbrev pub admit : Request → Option Fields → Auth Fields
  admit request none = raise authentication_required
  admit request (some principal) = do
    modify (λ s. record s { request_user = some principal })
    lift (check_scope request principal)
    lift (check_pin request principal)
    pure principal

  unfoldable pub get_current_user : Request → Auth Fields
  get_current_user request = do principal ← find_principal env request; admit request principal

unfoldable pub require_session : Fields → Result Fault Fields
unfolding lookup
require_session user =
    if not (is_text (lookup "auth_method" user) "session") then err session_required else ok user

unfoldable pub require_admin_session : Fields → Result Fault Fields
unfolding lookup
require_admin_session user =
    if not (is_text (lookup "role" user) "admin") then err admin_required else ok user
