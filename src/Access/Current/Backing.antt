-- ===== src/Access/Current/Backing.antt =====
-- Cached sessions that the database backs, through the calls of the cache.
use Prim.Native.String.{◌++◌}
use Prim.Native.String.append
use Prim.Native.Char.{Char, code}
use bigrag.Base.{
  ℕ, ◌+◌, ◌-◌, ◌*◌, ◌≤◌, ◌<◌, String, ◌≡◌, ◌≢◌, inl, inr, sym, ap, ◌∙◌, Bool, true, ◌&&◌, Option,
  none, some, List, [], ◌∷◌, All, Any, text_eq, eq_iff, ltb, arith, Bool-cases, is_some,
}
use mathlib.Core.Path.{subst}
use bigrag.Base.Json.{Value, object, Fields}
use bigrag.Base.Exec.Keeps.{Keeps, Keeps-pure, Keeps-bind, Keeps-if}
use bigrag.Access.Session.{
  UserSession, Entry, delete_call, Reply, answered, timed_out, failed, Env, Store,
  session_cache_key, api_key_cache_key, find_entry, delete_entry, auth_cache_get, auth_cache_set,
  auth_cache_delete,
}
use bigrag.Access.Principal.{ttl_until, claim_touch, touch_row, touch_api_key_last_used}
use bigrag.Access.Current.{find_session, cache_under}

-- Some session with this token hash lasts at least until `t`.
abbrev pub Lasts : String → ℕ → List UserSession → Type 0
Lasts h t = Any (λ r. (r.token_hash ≡ h) × (t ≤ r.expires_at))

pub Lasts-mono :
    (h : String) (t u : ℕ) (rs : List UserSession) → t ≤ u → Lasts h u rs → Lasts h t rs
Lasts-mono h t u [] le l = l
Lasts-mono h t u (r ∷ rs) le (inl x) = inl (x.0, omega arith)
Lasts-mono h t u (r ∷ rs) le (inr x) = inr (Lasts-mono h t u rs le x)

-- A cache entry under a session's key is gone at most `slack` milliseconds after the session ends.
pub record IsBacked (slack : ℕ) (sessions : List UserSession) (e : Entry) : Type 0 where
  pub backed : (h : String) → e.key ≡ session_cache_key h → Lasts h (e.gone_at - slack) sessions

abbrev pub Backed : ℕ → Store → Type 0
Backed slack s = All (IsBacked slack s.sessions) s.cache

module _ (slack : ℕ) where
  pub delete_entry-Backed :
      (sessions : List UserSession) (key : String) (es : List Entry)
      → All (IsBacked slack sessions) es
      → All (IsBacked slack sessions) (delete_entry key es)
  unfolding delete_entry
  delete_entry-Backed sessions key [] h = tt
  delete_entry-Backed sessions key (e ∷ es) h = elim (Bool-cases (text_eq e.key key)) [
    | inl y ↦ rw y (delete_entry-Backed sessions key es h.1)
    | inr n ↦ rw n (h.0, delete_entry-Backed sessions key es h.1)
  ]

  skip : (c : Char) (s t u v : String) → String.◌∷◌ c s ++ u ≡ String.◌∷◌ c t ++ v → s ++ u ≡ t ++ v
  skip c s t u v e = cc (append.cons c s u, append.cons c t v)

  abbrev head_code : String → ℕ
  head_code String.[] = 0
  head_code (String.◌∷◌ c s) = code c

  clash : (u v : String) → "api_key:" ++ u ≢ "session:" ++ v
  clash u v e =
      let first : String.◌∷◌ "a" ("pi_key:" ++ u) ≡ String.◌∷◌ "s" ("ession:" ++ v) =
        sym (append.cons "a" "pi_key:" u) ∙ e ∙ append.cons "s" "ession:" v in
      absurd (omega (arith, ap head_code first))

  -- An API key's cache entry is under no session's key.
  keys_differ : (h k : String) → api_key_cache_key k ≢ session_cache_key h
  unfolding api_key_cache_key session_cache_key
  keys_differ h k e = clash k h (
      skip ":" "api_key:" "session:" k h (
        skip "h" ":api_key:" ":session:" k h (
          skip "t" "h:api_key:" "h:session:" k h (
            skip "u" "th:api_key:" "th:session:" k h
              (skip "a" "uth:api_key:" "uth:session:" k h e)))))

  pub find_session-Lasts :
      (now : ℕ) (h : String) (rs : List UserSession) {r : UserSession}
      → find_session now h rs ≡ some r
      → (r.token_hash ≡ h) × (now < r.expires_at) × Lasts h r.expires_at rs
  unfolding find_session
  find_session-Lasts now h [] e = cc
  find_session-Lasts now h (q ∷ rs) {r} e =
      elim (Bool-cases (text_eq q.token_hash h && ltb now q.expires_at)) [
        | inl y ↦ ground (arith, eq_iff q.token_hash h)
        | inr n ↦ let (a, b, c) = find_session-Lasts now h rs (rw n at e) in (a, b, inr c)
      ]

  -- An entry that is set for a session's remaining seconds, and late by `delay`, is gone in time.
  pub ttl_in_time :
      (env : Env) (expires_at delay : ℕ)
      → env.now < expires_at
      → delay ≤ slack
      → env.now + delay + ttl_until env (some expires_at) * 1000 ≤ expires_at + slack
  unfolding ttl_until
  ttl_in_time env expires_at delay h le = omega arith

  pub api_key_IsBacked :
      (sessions : List UserSession) (h : String) (v : Value) (t : ℕ)
      → IsBacked slack sessions (record { key = api_key_cache_key h; value = v; gone_at = t })
  api_key_IsBacked sessions h v t = record { backed = λ k e. absurd (keys_differ k h e) }

  pub set-Backed_at :
      (env : Env) (key : String) (v : Value) (ttl : ℕ) (s : Store)
      → Backed slack s
      → IsBacked slack s.sessions
          (record { key = key; value = v; gone_at = env.now + env.set_delay key + ttl * 1000 })
      → Backed slack (auth_cache_set env key v ttl s).1
  unfolding auth_cache_set
  set-Backed_at env key v ttl s h new = elim (Bool-cases (env.connected && env.runs_set key)) [
    | inl y ↦ rw y (new, delete_entry-Backed s.sessions key s.cache h)
    | inr n ↦ rw n h
  ]

  pub set_key-Backed :
      (env : Env) (h : String) (v : Value) (ttl : ℕ)
      → Keeps (Backed slack) (auth_cache_set env (api_key_cache_key h) v ttl)
  set_key-Backed env h v ttl = record {
    at = λ s b. set-Backed_at env (api_key_cache_key h) v ttl s b (
        api_key_IsBacked s.sessions h v
          (env.now + env.set_delay (api_key_cache_key h) + ttl * 1000));
  }

  pub delete-Backed : (env : Env) (key : String) → Keeps (Backed slack) (auth_cache_delete env key)
  unfolding auth_cache_delete
  delete-Backed env key = record {
    at = λ s h. elim (Bool-cases (env.connected && env.answers (delete_call key))) [
      | inl y ↦ rw y (delete_entry-Backed s.sessions key s.cache h)
      | inr n ↦ rw n h
    ];
  }

  pub get-Backed : (env : Env) (key : String) → Keeps (Backed slack) (auth_cache_get env key)
  unfolding auth_cache_get
  get-Backed env key = record { at = λ s h. h }

  pub claim-Backed :
      (env : Env) (key : String) (r : Reply) → Keeps (Backed slack) (claim_touch env key r)
  unfolding claim_touch
  claim-Backed env key answered = record {
    at = λ s h. elim (Bool-cases (is_some (find_entry env.now key s.throttles))) [
      | inl y ↦ rw y h
      | inr n ↦ rw n h
    ];
  }
  claim-Backed env key timed_out = record { at = λ s h. h }
  claim-Backed env key failed = record { at = λ s h. h }

  pub touch_row-Backed :
      (env : Env) (id : String) (b : Bool) → Keeps (Backed slack) (touch_row env id b)
  touch_row-Backed env id b = record {
    at = λ s h. elim (Bool-cases (b && env.is_uuid id)) [ inl y ↦ rw y h | inr n ↦ rw n h ];
  }

  pub touch-Backed :
      (env : Env) (id : Option String) (last : Option ℕ)
      → Keeps (Backed slack) (touch_api_key_last_used env id last)
  unfolding touch_api_key_last_used
  touch-Backed env none last = record { at = λ s h. h }
  touch-Backed env (some id) last = Keeps-if _ _ _ (Keeps-pure tt) (
      Keeps-if _ _ _ (touch_row-Backed env id true)
        (Keeps-bind _ _ (claim-Backed env id env.throttle_reply) (touch_row-Backed env id)))

  pub cache_under-Backed :
      (env : Env) (hs : List String) (p : Fields) (ttl : ℕ)
      → Keeps (Backed slack) (cache_under env hs p ttl)
  unfolding cache_under
  cache_under-Backed env [] p ttl = Keeps-pure tt
  cache_under-Backed env (h ∷ hs) p ttl =
      Keeps-bind _ _ (set_key-Backed env h (object p) ttl) (λ _. cache_under-Backed env hs p ttl)

  cancel : (p h k : String) → p ++ h ≡ p ++ k → h ≡ k
  cancel String.[] h k e = sym (append.nil h) ∙ e ∙ append.nil k
  cancel (String.◌∷◌ c p) h k e = cancel p h k (skip c p p h k e)

  session_key_injective : (h k : String) → session_cache_key h ≡ session_cache_key k → h ≡ k
  unfolding session_cache_key
  session_key_injective h k e = cancel "auth:session:" h k e

  pub session_IsBacked :
      (sessions : List UserSession) (h : String) (v : Value) (t u : ℕ)
      → t ≤ u + slack
      → Lasts h u sessions
      → IsBacked slack sessions (record { key = session_cache_key h; value = v; gone_at = t })
  session_IsBacked sessions h v t u le lasts = record {
    backed = λ k e.
        Lasts-mono k (t - slack) u sessions (omega (arith, le))
          (subst (λ (x : String). Lasts x u sessions) (session_key_injective h k e) lasts);
  }
