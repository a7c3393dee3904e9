-- ===== src/Access/Current/Freshness.antt =====
-- The cache of principals and the ends of the sessions, through a whole request.
use bigrag.Base.{
  ℕ, ◌+◌, ◌*◌, ◌≤◌, ◌<◌, String, ◌≡◌, inl, inr, refl, Option, none, some, List, [], ◌∷◌, ltb,
  Bool-cases,
}
use bigrag.Base.Json.{Value, object, Fields}
use bigrag.Base.Result.{Result, ok, err}
use bigrag.Base.Exec.{pure, lift, when, ◌>>◌}
use bigrag.Access.Fault.{Fault}
use bigrag.Base.Exec.Keeps.{
  Keeps, Keeps-pure, Keeps-bind, Keeps-bind_at, Keeps-when, Keeps-if, Keeps-raise, Keeps-gets,
}
use bigrag.Access.Session.{
  UserSession, ApiKey, Auth, Env, Store, session_cache_key, api_key_cache_key, auth_cache_set,
}
use bigrag.Access.Principal.{Request, hash_session_token, principal_revoked, ttl_until}
use bigrag.Access.Current.{
  find_session, cache_session, session_row, session_by_cookie, api_key_row, api_key_by_token,
  api_key_principal, or_else, cached_session, after_cookie, from_cached_token, cached_api_key,
  if_cached, check_scope, check_pin, admit, usable_cookie, bearer_key, user_from_session,
  user_from_api_key, principal_from_cache, find_principal, from_cached_hashes, get_current_user,
}
use bigrag.Access.Current.Backing.{
  Lasts, IsBacked, Backed, find_session-Lasts, ttl_in_time, set-Backed_at, delete-Backed,
  get-Backed, touch-Backed, cache_under-Backed, session_IsBacked,
}

module _ (slack : ℕ) where
  cache_session-Backed :
      (env : Env) (late : (key : String) → env.set_delay key ≤ slack) (h : String)
      (row : UserSession) (p : Fields) (s : Store)
      → env.now < row.expires_at
      → Lasts h row.expires_at s.sessions
      → Backed slack s
      → Backed slack (cache_session env h row p s).1
  cache_session-Backed env late h row p s lt lasts b =
      Keeps-bind_at {P = Backed slack} (when (ltb 0 ttl) set) (λ _. pure (some p)) s cached
        (λ _. Keeps-pure (some p))
    where
      ttl : ℕ
      ttl = ttl_until env (some row.expires_at)

      set : Auth (Unit {0})
      set = auth_cache_set env (session_cache_key h) (object p) ttl

      entry : IsBacked slack s.sessions (record {
        key = session_cache_key h;
        value = object p;
        gone_at = env.now + env.set_delay (session_cache_key h) + ttl * 1000;
      })
      entry =
          session_IsBacked slack s.sessions h (object p)
            (env.now + env.set_delay (session_cache_key h) + ttl * 1000) row.expires_at
            (ttl_in_time slack env row.expires_at (env.set_delay (session_cache_key h)) lt
              (late (session_cache_key h)))
            lasts

      cached : Backed slack (when (ltb 0 ttl) set s).1
      cached = elim (Bool-cases (ltb 0 ttl)) [
        | inl y ↦ rw y (set-Backed_at slack env (session_cache_key h) (object p) ttl s b entry)
        | inr n ↦ rw n b
      ]

  session_row-Backed :
      (env : Env) (late : (key : String) → env.set_delay key ≤ slack) (h : String)
      (o : Option UserSession) (s : Store)
      → find_session env.now h s.sessions ≡ o
      → Backed slack s
      → Backed slack (session_row env h o s).1
  session_row-Backed env late h none s e b = b
  session_row-Backed env late h (some row) s e b =
      let (_, lt, lasts) = find_session-Lasts slack env.now h s.sessions e in
      cache_session-Backed env late h row _ s lt lasts b

  session_by_cookie-Backed :
      (env : Env) (late : (key : String) → env.set_delay key ≤ slack) (o : Option String)
      → Keeps (Backed slack) (session_by_cookie env o)
  session_by_cookie-Backed env late none = Keeps-pure none
  session_by_cookie-Backed env late (some cookie) = record {
    at = λ s b. session_row-Backed env late (hash_session_token env cookie) _ s refl b;
  }

  api_key_row-Backed :
      (env : Env) (hs : List String) (o : Option ApiKey)
      → Keeps (Backed slack) (api_key_row env hs o)
  api_key_row-Backed env hs none = Keeps-pure none
  api_key_row-Backed env hs (some k) =
      Keeps-bind _ _ (touch-Backed slack env (some k.id) k.last_used_at) (λ _.
        Keeps-bind _ _
          (Keeps-when _ _ (λ _.
            cache_under-Backed slack env hs (api_key_principal env k) (ttl_until env k.expires_at)))
          (λ _. Keeps-pure (some (api_key_principal env k))))

  api_key_by_token-Backed :
      (env : Env) (o : Option String) → Keeps (Backed slack) (api_key_by_token env o)
  api_key_by_token-Backed env none = Keeps-pure none
  api_key_by_token-Backed env (some token) =
      Keeps-bind _ _ (Keeps-gets _) (api_key_row-Backed env _)

  cached_api_key-Backed :
      (env : Env) (h : String) (d : Fields) → Keeps (Backed slack) (cached_api_key env h d)
  cached_api_key-Backed env h d =
      Keeps-if (principal_revoked env d) _ _
        (Keeps-bind _ _ (delete-Backed slack env (api_key_cache_key h)) (λ _. Keeps-pure none))
        (Keeps-bind _ _ (touch-Backed slack env _ _) (λ _. Keeps-pure (some d)))

  if_cached-Backed :
      (env : Env) (h : String) (next : Auth (Option Fields)) (cached : Option Value)
      → Keeps (Backed slack) next
      → Keeps (Backed slack) (if_cached env h next cached)
  if_cached-Backed env h next (some (object d)) k = cached_api_key-Backed env h d
  if_cached-Backed env h next _ k = k

  from_cached_hashes-Backed :
      (env : Env) (hs : List String) → Keeps (Backed slack) (from_cached_hashes env hs)
  unfolding from_cached_hashes
  from_cached_hashes-Backed env [] = Keeps-pure none
  from_cached_hashes-Backed env (h ∷ hs) =
      Keeps-bind _ _ (get-Backed slack env (api_key_cache_key h))
        (λ cached. if_cached-Backed env h _ cached (from_cached_hashes-Backed env hs))

  from_cached_token-Backed :
      (env : Env) (o : Option String) → Keeps (Backed slack) (from_cached_token env o)
  from_cached_token-Backed env none = Keeps-pure none
  from_cached_token-Backed env (some token) = from_cached_hashes-Backed env _

  after_cookie-Backed :
      (env : Env) (token : Option String) (o : Option Value)
      → Keeps (Backed slack) (after_cookie env token o)
  after_cookie-Backed env token (some (object d)) = Keeps-pure (some d)
  after_cookie-Backed env token _ = from_cached_token-Backed env token

  cached_session-Backed :
      (env : Env) (o : Option String) → Keeps (Backed slack) (cached_session env o)
  cached_session-Backed env none = Keeps-pure none
  cached_session-Backed env (some cookie) = get-Backed slack env _

  or_else-Backed :
      (env : Env) (o : Option Fields) (next : Auth (Option Fields))
      → Keeps (Backed slack) next
      → Keeps (Backed slack) (or_else env o next)
  or_else-Backed env none next k = k
  or_else-Backed env (some p) next k = Keeps-pure (some p)

  find_principal-Backed :
      (env : Env) (late : (key : String) → env.set_delay key ≤ slack) (request : Request)
      → Keeps (Backed slack) (find_principal env request)
  unfolding find_principal principal_from_cache user_from_session user_from_api_key
  find_principal-Backed env late request =
      Keeps-bind _ _
        (Keeps-bind _ _ (cached_session-Backed env cookie) (after_cookie-Backed env token))
        (λ cached.
          Keeps-bind _ _ (or_else-Backed env cached _ (session_by_cookie-Backed env late cookie))
            (λ by_session. or_else-Backed env by_session _ (api_key_by_token-Backed env token)))
    where
      cookie : Option String
      cookie = usable_cookie env request

      token : Option String
      token = bearer_key request.authorization

  checks-Backed :
      (r q : Result Fault (Unit {0})) (p : Fields) (s : Store)
      → Backed slack s
      → Backed slack ((lift r >> (lift q >> pure p)) s).1
  checks-Backed (err e) q p s b = b
  checks-Backed (ok _) (err e) p s b = b
  checks-Backed (ok _) (ok _) p s b = b

  admit-Backed :
      (env : Env) (request : Request) (o : Option Fields)
      → Keeps (Backed slack) (admit env request o)
  admit-Backed env request none = Keeps-raise _
  admit-Backed env request (some p) = record {
    at = λ s b. checks-Backed (check_scope request p) (check_pin request p) p _ b;
  }

  -- Let Redis run the SETs of a request, if at all, within `slack` milliseconds of the clock's reading.
  -- Whatever the request is and whichever calls of Redis fail or take too long, `get_current_user`
  -- leaves each cached session gone at most `slack` milliseconds after the session of the database
  -- ends, if that was so before.
  pub get_current_user-Backed :
      (env : Env) (late : (key : String) → env.set_delay key ≤ slack) (request : Request)
      (s : Store)
      → Backed slack s
      → Backed slack (get_current_user env request s).1
  unfolding get_current_user
  get_current_user-Backed env late request s b =
      (Keeps-bind {P = Backed slack} _ _ (find_principal-Backed env late request)
          (admit-Backed env request)).at
        s b
