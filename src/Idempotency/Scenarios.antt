-- ===== src/Idempotency/Scenarios.antt =====
-- Requests with idempotency keys, and the theorems of the middleware at them.
use bigrag.Base.{ℕ, ◌+◌, ◌<◌, String, ◌≡◌, inr, refl, true, false, none, some, [], ◌∷◌, arith}
use bigrag.Idempotency.{
  http_request, start, body, Request, Env, State, Reply, handled_key, read_request_body, cache_key,
  note_messages, cached_of, call,
}
use bigrag.RedisCache.{Cached, code, get}
use bigrag.Idempotency.Replay.{IsHandled, to_cache, Answers, call-call, call-freed}

-- The application counts its calls; the hash, the lengths and the rest are simple.
abbrev env_of : ℕ → Env ℕ
env_of status = record {
  app = λ request n. record {
    messages = start status [] ∷ body "made" ∷ [];
    raises = false;
    world = n + 1;
    elapsed = 2;
  };
  byte_length = λ s. 4;
  sha256 = λ s. s;
  lower = λ s. s;
  strip = λ s. s;
  connected = true;
  ttl_seconds = 86400;
  before_set = λ es. es;
  before_second_get = λ es. es;
}

abbrev request_of : String → Request
request_of text = record {
  is_http = true;
  method = "POST";
  path = "/v1/collections";
  idempotency_key = some "k";
  content_type = "application/json";
  content_length = none;
  principal = "sess:1";
  received = http_request text false ∷ [];
}

abbrev name : String
name = "idem:sess:1|k|POST|/v1/collections"

handled : (status : ℕ) → IsHandled (env_of status) (request_of "a") name "a"
unfolding handled_key read_request_body cache_key
handled status = record {
  key = "k";
  text = "a";
  handled = refl;
  read = refl;
  named = refl;
  hashed = refl;
}

other-IsHandled : IsHandled (env_of 201) (request_of "b") name "b"
unfolding handled_key read_request_body cache_key
other-IsHandled = record {
  key = "k";
  text = "b";
  handled = refl;
  read = refl;
  named = refl;
  hashed = refl;
}

abbrev before : State ℕ
before = record { world = 0; entries = []; now = 10 }

abbrev made : Cached
made = record { status = code 201; request_hash = "a"; headers = []; body = "made" }

caches : to_cache (env_of 201) (request_of "a") "a" before ≡ some made
unfolding note_messages cached_of
caches = refl

abbrev after : State ℕ
after = (call (env_of 201) (request_of "a") before).1

free : get name 10 [] ≡ none
unfolding get
free = refl

later : after.now < after.now + 86400
later = omega arith

call-call_example :
    (reply : Reply) × (call (env_of 201) (request_of "b") after ≡ (reply, after))
    × (made.request_hash ≡ "a")
    × Answers (env_of 201) made "b" reply
call-call_example =
    call-call (env_of 201) (request_of "a") (request_of "b") name "a" "b" made before after
      (handled 201) other-IsHandled free free refl caches refl later

not_cached : to_cache (env_of 500) (request_of "a") "a" before ≡ none
unfolding note_messages cached_of
not_cached = refl

call-freed_example : get name 20 (call (env_of 500) (request_of "a") before).1.entries ≡ none
call-freed_example =
    call-freed (env_of 500) (request_of "a") name "a" before (handled 500) free free
      (inr not_cached) 20
