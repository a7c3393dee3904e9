-- ===== src/RedisCache.antt =====
-- Values with an expiry in Redis: api/bigrag/services/redis_cache.py, with the values that
-- api/bigrag/middleware/idempotency.py keeps there.
use bigrag.Base.{
  ℕ, ◌+◌, String, Bool, true, false, Option, none, some, List, [], ◌∷◌, text_eq, leb, if◌then◌else◌,
}

-- `status` in a cached value: one of the two sentinels, or an HTTP status.
pub data CachedStatus : Type 0 where
  in_flight completed_unreplayable : CachedStatus
  code : ℕ → CachedStatus

pub record Cached : Type 0 where
  pub status : CachedStatus
  pub request_hash : String
  pub headers : List (String × String)
  pub body : String

-- A key in Redis, its value and the second at which it expires.
pub record Entry : Type 0 where
  pub key : String
  pub value : Cached
  pub expires : ℕ

-- `redis_cache.get`, `set`, `set_if_absent` and `delete`
unfoldable pub get : String → ℕ → List Entry → Option Cached
get key now [] = none
get key now (e ∷ es) =
    if text_eq e.key key then (if leb e.expires now then none else some e.value) else get key now es

unfoldable pub delete : String → List Entry → List Entry
delete key [] = []
delete key (e ∷ es) = let rest = delete key es in if text_eq e.key key then rest else e ∷ rest

unfoldable pub set : String → Cached → ℕ → List Entry → List Entry
unfolding delete
set key value expires es = record { key = key; value = value; expires = expires } ∷ delete key es

unfoldable pub set_if_absent : String → Cached → ℕ → ℕ → List Entry → Bool × List Entry
unfolding get set
set_if_absent key value now ttl es = elim (get key now es) [
  | none ↦ (true, set key value (now + ttl) es)
  | some c ↦ (false, es)
]
