-- ===== src/Access/Session.antt =====
-- What authentication reads and writes: the sessions and API keys of the database, the principals
-- cached in Redis (api/bigrag/middleware/auth_cache.py), and the throttle of `last_used_at`.
use Prim.Native.String.{◌++◌}
use bigrag.Base.{
  ℕ, ◌+◌, ◌*◌, String, Bool, ◌&&◌, Option, none, some, List, [], ◌∷◌, text_eq, ltb, if◌then◌else◌,
}
use bigrag.Base.Json.{Value, Fields}
use bigrag.Base.Exec.{Exec, gets, modify, when}
use bigrag.Access.Fault.{Fault}

-- Times are milliseconds since a common start.
pub record User : Type 0 where
  pub id : String
  pub email : String
  pub display_name : String
  pub role : String

pub record UserSession : Type 0 where
  pub token_hash : String
  pub expires_at : ℕ
  pub user : User

pub record ApiKey : Type 0 where
  pub id : String
  pub name : String
  pub key_hash : String
  pub active : Bool
  pub expires_at : Option ℕ
  pub last_used_at : Option ℕ
  pub permissions : Value
  pub user : User

-- A Redis entry, which is gone from its expiry on.
pub record Entry : Type 0 where
  pub key : String
  pub value : Value
  pub gone_at : ℕ

-- One call of the cache within a request.
pub data Call : Type 0 where
  get_call : String → Call
  delete_call : String → Call

-- What Redis answers to the throttle's SET.
pub data Reply : Type 0 where
  answered timed_out failed : Reply

-- The code outside the repository, the settings, and how the outside behaves in this request.
pub record Env : Type 0 where
  pub sha256 : String → String
  pub hmac_sha256 : String → String → String
  pub isoformat : ℕ → String
  pub fromisoformat : String → Option ℕ
  pub is_uuid : String → Bool
  pub peppers : List String
  pub auth_principal_cache_ttl : ℕ
  pub connected : Bool  -- there is a Redis client
  pub answers : Call → Bool  -- the GET or DEL neither fails nor takes too long
  -- whether Redis runs the SET of a key, be it after the code has stopped waiting, and how long after
  -- the clock was read
  pub runs_set : String → Bool
  pub set_delay : String → ℕ
  pub throttle_reply : Reply
  pub now : ℕ

pub record Store : Type 0 where
  pub sessions : List UserSession
  pub api_keys : List ApiKey
  pub cache : List Entry
  pub throttles : List Entry
  pub request_user : Option Fields

abbrev pub Auth : Type 0 → Type 0
Auth A = Exec Fault Store A

unfoldable pub session_cache_key : String → String
session_cache_key token_hash = "auth:session:" ++ token_hash

unfoldable pub api_key_cache_key : String → String
api_key_cache_key key_hash = "auth:api_key:" ++ key_hash

-- Redis GET, SET with EX, DEL.
unfoldable pub find_entry : ℕ → String → List Entry → Option Value
find_entry now key [] = none
find_entry now key (e ∷ es) =
    if text_eq e.key key && ltb now e.gone_at then some e.value else find_entry now key es

unfoldable pub delete_entry : String → List Entry → List Entry
delete_entry key [] = []
delete_entry key (e ∷ es) =
    let rest = delete_entry key es in if text_eq e.key key then rest else e ∷ rest

abbrev pub put_entry : String → Value → ℕ → List Entry → List Entry
put_entry key value gone_at es =
    record { key = key; value = value; gone_at = gone_at } ∷ delete_entry key es

module _ (env : Env) where
  -- A call that fails, takes too long, or has no client finds nothing.
  unfoldable pub auth_cache_get : String → Auth (Option Value)
  unfolding find_entry
  auth_cache_get key = gets (λ s.
      if env.connected && env.answers (get_call key) then find_entry env.now key s.cache else none)

  -- `ttl` is in seconds from when Redis runs the SET.
  unfoldable pub auth_cache_set : String → Value → ℕ → Auth Unit
  unfolding delete_entry
  auth_cache_set key value ttl = when (env.connected && env.runs_set key) (
      modify (λ s. record s {
        cache = put_entry key value (env.now + env.set_delay key + ttl * 1000) s.cache;
      }))

  unfoldable pub auth_cache_delete : String → Auth Unit
  unfolding delete_entry
  auth_cache_delete key =
      when (env.connected && env.answers (delete_call key))
        (modify (λ s. record s { cache = delete_entry key s.cache }))
