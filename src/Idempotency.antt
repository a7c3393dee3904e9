-- ===== src/Idempotency.antt =====
-- The idempotency keys of requests: api/bigrag/middleware/idempotency.py over RedisCache.
mod Replay
mod Scenarios
use bigrag.Base.{
  ℕ, zero, suc, ◌+◌, String, Bool, true, false, not, ◌&&◌, ◌||◌, Option, none, some, List, [], ◌∷◌,
  ◌++◌, text_eq, ltb, leb, if◌then◌else◌, keep, any_of,
}
use bigrag.RedisCache.{
  CachedStatus, in_flight, completed_unreplayable, code, Cached, Entry, get, set, delete,
  set_if_absent,
}
use Prim.Native.String.{◌++◌ as text_append}
use bigrag.Base.Text.{starts_with, is_empty}

-- ASGI messages of a request and of a response.
pub data Received : Type 0 where
  http_request : String → Bool → Received
  http_disconnect : Received

pub data Message : Type 0 where
  start : ℕ → List (String × String) → Message
  body : String → Message

pub record Request : Type 0 where
  pub is_http : Bool
  pub method : String
  pub path : String
  pub idempotency_key : Option String
  pub content_type : String
  pub content_length : Option ℕ
  pub principal : String
  pub received : List Received

-- What the wrapped application does: its messages, whether it raises, how long it takes.
pub record Run (W : Type 0) : Type 0 where
  pub messages : List Message
  pub raises : Bool
  pub world : W
  pub elapsed : ℕ

pub record Env (W : Type 0) : Type 0 where
  pub app : Request → W → Run W
  pub byte_length : String → ℕ
  pub sha256 : String → String
  pub lower : String → String
  pub strip : String → String
  pub connected : Bool
  pub ttl_seconds : ℕ
  -- what other requests write between two calls of Redis
  pub before_set : List Entry → List Entry
  pub before_second_get : List Entry → List Entry

pub record State (W : Type 0) : Type 0 where
  pub world : W
  pub entries : List Entry
  pub now : ℕ

-- What the client is sent.
pub data Reply : Type 0 where
  passed : List Message → Reply
  in_flight_conflict unreplayable_conflict body_conflict : Reply
  replayed : ℕ → List (String × String) → String → Reply

-- `b"".join`
unfoldable pub concat : List String → String
concat [] = ""
concat (x ∷ xs) = text_append x (concat xs)

abbrev pub text_in : String → List String → Bool
text_in x xs = any_of (λ y. text_eq y x) xs

abbrev pub mutating_methods : List String
mutating_methods = "POST" ∷ "PUT" ∷ "PATCH" ∷ "DELETE" ∷ []

abbrev pub max_cached_body_bytes : ℕ
max_cached_body_bytes = 65536

abbrev pub max_request_body_bytes : ℕ
max_request_body_bytes = 8388608

abbrev pub in_flight_ttl_seconds : ℕ
in_flight_ttl_seconds = 60

abbrev sensitive_response_headers : List String
sensitive_response_headers = "content-length" ∷ "set-cookie" ∷ []

abbrev uncacheable_response_routes : List (String × String)
uncacheable_response_routes =
    ("POST", "/v1/admin/api-keys")
    ∷ ("POST", "/v1/admin/api-keys/")
    ∷ ("POST", "/v1/admin/mcp-servers")
    ∷ ("POST", "/v1/admin/mcp-servers/")
    ∷ ("POST", "/v1/admin/webhooks")
    ∷ ("POST", "/v1/admin/webhooks/")
    ∷ []

-- `_should_skip_response_cache`
unfoldable pub should_skip_response_cache : String → String → Bool
unfolding starts_with
should_skip_response_cache method path =
    any_of (λ (m, prefix). text_eq method m && starts_with path prefix) uncacheable_response_routes

abbrev is_longer : Option ℕ → Bool
is_longer none = false
is_longer (some n) = ltb max_cached_body_bytes n

-- `send_wrapper`: what it notes of the messages that pass.
pub record Noted : Type 0 where
  pub status_code : ℕ
  pub response_headers : List (String × String)
  pub body_chunks : List String
  pub body_size : ℕ
  pub cacheable_body : Bool

abbrev pub nothing_noted : Noted
nothing_noted = record {
  status_code = 0;
  response_headers = [];
  body_chunks = [];
  body_size = 0;
  cacheable_body = true;
}

module _ {W : Type 0} (env : Env W) where
  unfoldable pub should_skip_body : Request → Bool
  unfolding starts_with
  should_skip_body request =
      starts_with (env.lower request.content_type) "multipart/form-data"
      || is_longer request.content_length

  -- `_read_request_body`: the chunks of the body, none where they are too long.
  unfoldable pub read_request_body : List Received → ℕ → List String → Option String
  unfolding concat
  read_request_body [] total chunks = some (concat chunks)
  read_request_body (http_disconnect ∷ ms) total chunks = some (concat chunks)
  read_request_body (http_request chunk more ∷ ms) total chunks =
      let size = total + env.byte_length chunk in
      let rest = read_request_body ms size (chunks ++ chunk ∷ []) in
      if ltb max_request_body_bytes size
      then none
      else if more
      then rest
      else some (concat (chunks ++ chunk ∷ []))

  -- `_cache_key`
  unfoldable pub cache_key : Request → String → String
  unfolding concat
  cache_key request key = text_append "idem:" (
      env.sha256
        (concat (request.principal ∷ "|" ∷ key ∷ "|" ∷ request.method ∷ "|" ∷ request.path ∷ [])))

  -- The key of a request that the middleware looks after.
  abbrev stripped_key : Option String → Option String
  stripped_key none = none
  stripped_key (some raw) = let key = env.strip raw in if is_empty key then none else some key

  unfoldable pub handled_key : Request → Option String
  unfolding should_skip_body starts_with
  handled_key request =
      if not request.is_http || not (text_in request.method mutating_methods)
      then none
      else if starts_with request.path "/v1/auth"
      then none
      else if not env.connected || should_skip_body request
      then none
      else stripped_key request.idempotency_key

  -- The entry is cached while the noted body is small enough.
  abbrev pub with_chunk : String → Noted → Noted
  with_chunk chunk n =
      let size = n.body_size + env.byte_length chunk in
      if is_empty chunk
      then n
      else if n.cacheable_body && leb size max_cached_body_bytes
      then record n { body_size = size; body_chunks = n.body_chunks ++ chunk ∷ [] }
      else record n { body_size = size; body_chunks = []; cacheable_body = false }

  unfoldable pub note_messages : List Message → Noted → Noted
  note_messages [] n = n
  note_messages (start status headers ∷ ms) n =
      note_messages ms (record n { status_code = status; response_headers = headers })
  note_messages (body chunk ∷ ms) n = note_messages ms (with_chunk chunk n)

  abbrev pub is_success : ℕ → Bool
  is_success status = leb 200 status && ltb status 300

  abbrev pub shown_headers : List (String × String) → List (String × String)
  shown_headers headers =
      keep (λ (k, v). not (text_in (env.lower k) sensitive_response_headers)) headers

  -- What is cached after the application ran, if anything is: the whole response, or its sentinel.
  unfoldable pub cached_of : Request → String → Noted → Option Cached
  unfolding should_skip_response_cache concat
  cached_of request fingerprint n =
      let skips = should_skip_response_cache request.method request.path in
      if is_success n.status_code && n.cacheable_body && not skips
      then some (record {
        status = code n.status_code;
        request_hash = fingerprint;
        headers = shown_headers n.response_headers;
        body = concat n.body_chunks;
      })
      else if is_success n.status_code && skips
      then some (record {
        status = completed_unreplayable;
        request_hash = fingerprint;
        headers = [];
        body = "";
      })
      else none

  -- `finally: if not cached_response: await redis_cache.delete(cache_key)`; an exception of the
  -- application skips the caching.
  abbrev pub stored : Bool → String → Option Cached → ℕ → List Entry → List Entry
  stored true key c now es = delete key es
  stored false key none now es = delete key es
  stored false key (some c) now es = set key c (now + env.ttl_seconds) es

  unfoldable pub run_app : Request → String → String → State W → Reply × State W
  unfolding note_messages cached_of set delete
  run_app request key fingerprint s =
      let run = env.app request s.world in
      let noted = note_messages run.messages nothing_noted in
      let now = s.now + run.elapsed in
      (
        passed run.messages,
        record {
          world = run.world;
          entries = stored run.raises key (cached_of request fingerprint noted) now s.entries;
          now = now;
        },
      )

  -- A request that the middleware lets through.
  abbrev pub pass_through : Request → State W → Reply × State W
  pass_through request s =
      let run = env.app request s.world in
      (passed run.messages, record s { world = run.world; now = s.now + run.elapsed })

  -- The answer that a cached value gives, and `_send_cached`.
  abbrev pub same_request : Cached → String → ℕ → Reply
  same_request c fingerprint status =
      if not (text_eq c.request_hash fingerprint)
      then body_conflict
      else replayed status (shown_headers c.headers) c.body

  unfoldable pub answer_cached : Cached → String → Reply
  answer_cached c fingerprint = elim c.status [
    | in_flight ↦ in_flight_conflict
    | completed_unreplayable ↦ unreplayable_conflict
    | code status ↦ same_request c fingerprint status
  ]

  -- `if not acquired: …`; where the key has gone since, the application runs.
  abbrev pub not_acquired : Request → String → String → Option Cached → State W → Reply × State W
  not_acquired request key fingerprint none s = run_app request key fingerprint s
  not_acquired request key fingerprint (some c) s = (answer_cached c fingerprint, s)

  abbrev pub acquired_or_not : Request → String → String → Bool → State W → Reply × State W
  acquired_or_not request key fingerprint true s = run_app request key fingerprint s
  acquired_or_not request key fingerprint false s =
      let t = record s { entries = env.before_second_get s.entries } in
      not_acquired request key fingerprint (get key t.now t.entries) t

  abbrev pub sentinel : String → Cached
  sentinel fingerprint = record {
    status = in_flight;
    request_hash = fingerprint;
    headers = [];
    body = "";
  }

  abbrev pub looked_up : Request → String → String → Option Cached → State W → Reply × State W
  looked_up request key fingerprint (some c) s = (answer_cached c fingerprint, s)
  looked_up request key fingerprint none s =
      let (acquired, es) =
        set_if_absent key (sentinel fingerprint) s.now in_flight_ttl_seconds
          (env.before_set s.entries) in
      acquired_or_not request key fingerprint acquired (record s { entries = es })

  abbrev pub fingerprinted : Request → String → Option String → State W → Reply × State W
  fingerprinted request key none s = pass_through request s
  fingerprinted request key (some text) s =
      let name = cache_key request key in
      looked_up request name (env.sha256 text) (get name s.now s.entries) s

  abbrev pub keyed : Request → Option String → State W → Reply × State W
  keyed request none s = pass_through request s
  keyed request (some key) s = fingerprinted request key (read_request_body request.received 0 []) s

  -- `IdempotencyMiddleware.__call__`
  unfoldable pub call : Request → State W → Reply × State W
  unfolding handled_key
  call request s = keyed request (handled_key request) s
