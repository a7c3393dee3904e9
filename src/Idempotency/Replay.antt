-- ===== src/Idempotency/Replay.antt =====
-- What a second request with the key of an earlier one gets.
use bigrag.Base.{
  ℕ, ◌+◌, ◌<◌, ◌≡◌, refl, ◌∙◌, subst, String, Bool, true, false, not, Option, none, some, List, [],
  ◌∷◌, text_eq, eq_iff, if◌then◌else◌, arith, ◌⊎◌, Bool-cases, inl, inr,
}
use bigrag.Idempotency.{
  Request, Env, State, Reply, body_conflict, replayed, unreplayable_conflict, shown_headers,
  handled_key, read_request_body, cache_key, note_messages, nothing_noted, cached_of, run_app,
  answer_cached, call, sentinel, looked_up, in_flight_ttl_seconds,
}
use bigrag.RedisCache.{Cached, completed_unreplayable, code, Entry, get, set, delete, set_if_absent}

get-delete : (key : String) (now : ℕ) (es : List Entry) → get key now (delete key es) ≡ none
unfolding get delete
get-delete key now [] = refl
get-delete key now (e ∷ es) = ground (arith, eq_iff e.key key, get-delete key now es)

get-set :
    (key : String) (c : Cached) (now expires : ℕ) (es : List Entry)
    → now < expires
    → get key now (set key c expires es) ≡ some c
unfolding get set
get-set key c now expires es h = ground (arith, eq_iff key key, h)

set_if_absent-none :
    (key : String) (c : Cached) (now ttl : ℕ) (es : List Entry)
    → get key now es ≡ none
    → set_if_absent key c now ttl es ≡ (true, set key c (now + ttl) es)
unfolding set_if_absent
set_if_absent-none key c now ttl es h = rw (h, set_if_absent) refl

module _ {W : Type 0} (env : Env W) where
  -- A request that the middleware handles, under the name of its cache entry and with the hash of
  -- its body.
  pub record IsHandled (request : Request) (name fingerprint : String) : Type 0 where
    pub key : String
    pub text : String
    pub handled : handled_key env request ≡ some key
    pub read : read_request_body env request.received 0 [] ≡ some text
    pub named : cache_key env request key ≡ name
    pub hashed : env.sha256 text ≡ fingerprint

  -- What the application does for the request at a state, and what is cached of it.
  abbrev pub to_cache : Request → String → State W → Option Cached
  to_cache request fingerprint s =
      cached_of env request fingerprint
        (note_messages env (env.app request s.world).messages nothing_noted)

  call-looked_up :
      (request : Request) (name fingerprint : String) (s : State W)
      → IsHandled request name fingerprint
      → call env request s ≡ looked_up env request name fingerprint (get name s.now s.entries) s
  unfolding call
  call-looked_up request name fingerprint s h =
      rw (h.handled) (rw (h.read) (rw (h.named, h.hashed) refl))

  call-fresh :
      (request : Request) (name fingerprint : String) (s : State W)
      → IsHandled request name fingerprint
      → get name s.now s.entries ≡ none
      → get name s.now (env.before_set s.entries) ≡ none
      → call env request s
        ≡ run_app env request name fingerprint (record s {
          entries =
              set name
                (sentinel env fingerprint)
                (s.now + in_flight_ttl_seconds)
                (env.before_set s.entries);
        })
  call-fresh request name fingerprint s h n b =
      let free =
        set_if_absent-none name (sentinel env fingerprint) s.now in_flight_ttl_seconds
          (env.before_set s.entries) b in
      rw (call-looked_up request name fingerprint s h, n, free) refl

  call-cached :
      (request : Request) (name fingerprint : String) (c : Cached) (s : State W)
      → IsHandled request name fingerprint
      → get name s.now s.entries ≡ some c
      → call env request s ≡ (answer_cached env c fingerprint, s)
  call-cached request name fingerprint c s h e =
      rw (call-looked_up request name fingerprint s h, e) refl

  run_app-stored :
      (request : Request) (name fingerprint : String) (c : Cached) (s : State W)
      → (env.app request s.world).raises ≡ false
      → to_cache request fingerprint s ≡ some c
      → (run_app env request name fingerprint s).1.entries
        ≡ set name c ((run_app env request name fingerprint s).1.now + env.ttl_seconds) s.entries
  unfolding run_app
  run_app-stored request name fingerprint c s r k = rw (r, k) refl

  run_app-freed :
      (request : Request) (name fingerprint : String) (s : State W)
      → ((env.app request s.world).raises ≡ true) ⊎ (to_cache request fingerprint s ≡ none)
      → (run_app env request name fingerprint s).1.entries ≡ delete name s.entries
  unfolding run_app
  run_app-freed request name fingerprint s (inl r) = rw r refl
  run_app-freed request name fingerprint s (inr n) =
      elim (Bool-cases (env.app request s.world).raises) [
        | inl r ↦ rw r refl
        | inr r ↦ rw (r, n) refl
      ]

  -- What a cached value answers to a request with another hash or with its own.
  abbrev pub Answers : Cached → String → Reply → Type 0
  Answers c fingerprint reply =
      ((c.status ≡ completed_unreplayable) × (reply ≡ unreplayable_conflict))
      ⊎ ((n : ℕ) × (c.status ≡ code n)
          × (reply ≡ (
              if text_eq c.request_hash fingerprint
              then replayed n (shown_headers env c.headers) c.body
              else body_conflict)))

  Answers-code :
      (n : ℕ) (hash other text : String) (headers : List (String × String))
      → let c : Cached = record {
        status = code n;
        request_hash = hash;
        headers = headers;
        body = text;
      } in
        Answers c other (answer_cached env c other)
  unfolding answer_cached
  Answers-code n hash other text headers = inr (n, refl, flipped _ _ (text_eq hash other))
    where
      flipped : (x y : Reply) (b : Bool) → (if not b then x else y) ≡ (if b then y else x)
      flipped x y true = refl
      flipped x y false = refl

  Answers-sentinel :
      (hash other : String)
      → let c : Cached = record {
        status = completed_unreplayable;
        request_hash = hash;
        headers = [];
        body = "";
      } in
        Answers c other (answer_cached env c other)
  unfolding answer_cached
  Answers-sentinel hash other = inl (refl, refl)

  either_cached :
      {c x y : Cached} (a b : Bool)
      → (if a then some x else if b then some y else none) ≡ some c
      → (x ≡ c) ⊎ (y ≡ c)
  either_cached true b h = inl cc
  either_cached false true h = inr cc
  either_cached false false h = cc

  -- Only whole responses and the sentinel of completed ones are cached, with the hash of the request.
  cached_of-Answers :
      (request : Request) (fingerprint other : String) (c : Cached) (s : State W)
      → to_cache request fingerprint s ≡ some c
      → (c.request_hash ≡ fingerprint) × Answers c other (answer_cached env c other)
  unfolding cached_of
  cached_of-Answers request fingerprint other c s h = elim (either_cached _ _ h) [
    | inl p ↦
        subst (λ x. (x.request_hash ≡ fingerprint) × Answers x other (answer_cached env x other)) p
          (refl, Answers-code _ fingerprint other _ _)
    | inr p ↦
        subst (λ x. (x.request_hash ≡ fingerprint) × Answers x other (answer_cached env x other)) p
          (refl, Answers-sentinel fingerprint other)
  ]

  -- Let a request be handled whose entry is free, also when it is to be set, and the application
  -- answer it without raising and with something that is cached. At a state with the entries that this
  -- left, while the entry lives, a handled request under the same entry runs nothing: it gets the
  -- stored response if its body has the same hash, a conflict if not, and the conflict of a one-time
  -- response if that is what was cached.
  pub call-call :
      (request again : Request) (name fingerprint other : String) (c : Cached) (s t : State W)
      → IsHandled request name fingerprint
      → IsHandled again name other
      → get name s.now s.entries ≡ none
      → get name s.now (env.before_set s.entries) ≡ none
      → (env.app request s.world).raises ≡ false
      → to_cache request fingerprint s ≡ some c
      → t.entries ≡ (call env request s).1.entries
      → t.now < (call env request s).1.now + env.ttl_seconds
      → (reply : Reply) × (call env again t ≡ (reply, t))
        × (c.request_hash ≡ fingerprint)
        × Answers c other reply
  call-call request again name fingerprint other c s t h k free still quiet caches same early =
      let (hash, answers) = cached_of-Answers request fingerprint other c s caches in
      (answer_cached env c other, call-cached again name other c t k found, hash, answers)
    where
      held : State W
      held = record s {
        entries =
            set name (sentinel env fingerprint) (s.now + in_flight_ttl_seconds)
              (env.before_set s.entries);
      }

      first : call env request s ≡ run_app env request name fingerprint held
      first = call-fresh request name fingerprint s h free still

      kept : t.entries ≡ (run_app env request name fingerprint held).1.entries
      kept = subst (λ r. t.entries ≡ r.1.entries) first same

      alive : t.now < (run_app env request name fingerprint held).1.now + env.ttl_seconds
      alive = subst (λ r. t.now < r.1.now + env.ttl_seconds) first early

      found : get name t.now t.entries ≡ some c
      found =
          rw (kept ∙ run_app-stored request name fingerprint c held quiet caches)
            (get-set name c t.now _ held.entries alive)

  -- A handled request whose entry is free, also when it is to be set, leaves it free if the application
  -- raises or nothing of its answer is cached, so that the request can be made again.
  pub call-freed :
      (request : Request) (name fingerprint : String) (s : State W)
      → IsHandled request name fingerprint
      → get name s.now s.entries ≡ none
      → get name s.now (env.before_set s.entries) ≡ none
      → ((env.app request s.world).raises ≡ true) ⊎ (to_cache request fingerprint s ≡ none)
      → (now : ℕ) → get name now (call env request s).1.entries ≡ none
  call-freed request name fingerprint s h free still fails now =
      rw (call-fresh request name fingerprint s h free still) (
        rw
          (run_app-freed request name fingerprint
            (record s {
              entries =
                  set name (sentinel env fingerprint) (s.now + in_flight_ttl_seconds)
                    (env.before_set s.entries);
            })
            fails)
          (get-delete name now _))
