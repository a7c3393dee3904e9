-- ===== src/Access/Principal.antt =====
-- The principal of a request: api/bigrag/middleware/auth.py and the key hashes of services/auth.py.
use bigrag.Base.{
  ℕ, ◌+◌, ◌-◌, ◌/◌, String, Bool, true, false, ◌&&◌, not, Option, none, some, List, [], ◌∷◌, ◌++◌,
  map, min, text_eq, leb, if◌then◌else◌, is_some, any_of,
}
use bigrag.Base.Json.{Value, null, boolean, text, Fields, end, field, lookup, is_text}
use bigrag.Base.Result.{ok, err}
use bigrag.Base.Exec.{pure, modify, ◌>>=◌, when}
use bigrag.Access.Fault.{redis_failed}
use bigrag.Access.Session.{
  User, ApiKey, Reply, answered, timed_out, failed, Env, Auth, find_entry, put_entry,
}

pub record Request : Type 0 where
  pub method : String
  pub path : String
  pub cookie : Option String  -- the session cookie
  pub authorization : String  -- "" where the header is missing

abbrev pub api_key_prefix : String
api_key_prefix = "bigrag_sk_"

-- `list(dict.fromkeys(xs))`: the first of each, in order
unfoldable pub unique_onto : List String → List String → List String
unique_onto seen [] = []
unique_onto seen (x ∷ xs) =
    let old = unique_onto seen xs in
    let new = unique_onto (x ∷ seen) xs in if any_of (λ y. text_eq y x) seen then old else x ∷ new

module _ (env : Env) where
  unfoldable pub hash_session_token : String → String
  hash_session_token token = env.sha256 token

  unfoldable pub api_key_hashes_for_lookup : String → List String
  unfolding unique_onto
  api_key_hashes_for_lookup plaintext =
      unique_onto []
        (map (λ pepper. env.hmac_sha256 pepper plaintext) env.peppers ++ env.sha256 plaintext ∷ [])

  -- Seconds; what is left until `expires_at` is rounded down.
  unfoldable pub ttl_until : Option ℕ → ℕ
  ttl_until none = env.auth_principal_cache_ttl
  ttl_until (some expires_at) = min env.auth_principal_cache_ttl ((expires_at - env.now) / 1000)

abbrev or_null : Option String → Value
or_null none = null
or_null (some s) = text s

-- `_serialize`
unfoldable pub serialize : User → String → Option String → Fields
serialize user auth api_key_id = field "id" (text user.id) (
    field "email" (text user.email) (
      field "display_name" (text user.display_name) (
        field "role" (text user.role) (
          field "auth_method" (text auth) (
            field "api_key_id" (or_null api_key_id) (
              field "api_key_name" null (
                field "scopes" null (
                  field "collection" null (
                    field "tenant_id" null
                      (field "active" (boolean true) (field "expires_at" null end)))))))))))

unfoldable pub is_api_key_principal : Fields → Bool
unfolding lookup
is_api_key_principal principal = is_text (lookup "auth_method" principal) "api_key"

-- `principal.get("active") is False`
abbrev is_false : Option Value → Bool
is_false (some (boolean false)) = true
is_false _ = false

abbrev is_past : ℕ → Option ℕ → Bool
is_past now none = false
is_past now (some t) = leb t now

module _ (env : Env) where
  unfoldable pub parse_iso : Option Value → Option ℕ
  parse_iso (some (text s)) = env.fromisoformat s
  parse_iso _ = none

  unfoldable pub principal_revoked : Fields → Bool
  unfolding is_api_key_principal lookup parse_iso
  principal_revoked principal =
      if not (is_api_key_principal principal)
      then false
      else if is_false (lookup "active" principal)
      then true
      else is_past env.now (parse_iso (lookup "expires_at" principal))

-- `update(ApiKey).where(ApiKey.id == target_id).values(last_used_at=now)`
unfoldable pub mark_used : String → ℕ → List ApiKey → List ApiKey
mark_used id now [] = []
mark_used id now (k ∷ ks) =
    let rest = mark_used id now ks in
    if text_eq k.id id then record k { last_used_at = some now } ∷ rest else k ∷ rest

-- `last_used_at` is at most a minute old.
abbrev is_recent : ℕ → Option ℕ → Bool
is_recent now none = false
is_recent now (some t) = leb (now - t) 60000

module _ (env : Env) where
  -- SET NX EX 60 on the throttle's key: whether this call has set it.
  unfoldable pub claim_touch : String → Reply → Auth Bool
  unfolding find_entry
  claim_touch key answered s =
      if is_some (find_entry env.now key s.throttles)
      then (ok false, s)
      else (ok true, record s { throttles = put_entry key null (env.now + 60000) s.throttles })
  claim_touch key timed_out s = (ok true, s)
  claim_touch key failed s = (err redis_failed, s)

  -- The write, after the throttle.
  abbrev pub touch_row : String → Bool → Auth Unit
  touch_row api_key_id should_touch =
      when (should_touch && env.is_uuid api_key_id)
        (modify (λ s. record s { api_keys = mark_used api_key_id env.now s.api_keys }))

  unfoldable pub touch_api_key_last_used : Option String → Option ℕ → Auth Unit
  unfolding claim_touch mark_used
  touch_api_key_last_used none last_used_at = pure tt
  touch_api_key_last_used (some api_key_id) last_used_at =
      if is_recent env.now last_used_at
      then pure tt
      else if not env.connected
      then touch_row api_key_id true
      else (claim_touch api_key_id env.throttle_reply >>= touch_row api_key_id)
