-- ===== src/Access/Current/Served.antt =====
-- A session that is served, from the cache or from the database, has not ended.
use bigrag.Base.{
  ℕ, ◌+◌, ◌-◌, String, ◌≡◌, inl, inr, refl, sym, ap, ◌∙◌, ◌&&◌, Option, none, some, List, [], ◌∷◌,
  All, text_eq, eq_iff, ltb, arith, Bool-cases,
}
use mathlib.Core.Path.{subst}
use bigrag.Base.Json.{Value, object, Fields}
use bigrag.Base.Result.{Result, ok}
use bigrag.Base.Exec.{pure, continue, ◌>>=◌, >>=-eq-ok}
use bigrag.Access.Fault.{Fault}
use bigrag.Access.Session.{
  UserSession, Entry, Env, Store, Auth, get_call, session_cache_key, find_entry, auth_cache_get,
}
use bigrag.Access.Principal.{Request, hash_session_token}
use bigrag.Access.Current.{
  find_session, session_row, session_by_cookie, usable_cookie, bearer_key, cached_session,
  after_cookie, or_else, api_key_by_token, find_principal, principal_from_cache, user_from_session,
  user_from_api_key, admit, get_current_user,
}
use bigrag.Access.Current.Backing.{Lasts, Lasts-mono, IsBacked, Backed, find_session-Lasts}

find_entry-Lasts :
    (sessions : List UserSession) (now : ℕ) (h : String) (es : List Entry) (v : Value)
    → All (IsBacked 0 sessions) es
    → find_entry now (session_cache_key h) es ≡ some v
    → Lasts h (now + 1) sessions
unfolding find_entry
find_entry-Lasts sessions now h [] v b e = cc
find_entry-Lasts sessions now h (x ∷ es) v b e =
    elim (Bool-cases (text_eq x.key (session_cache_key h) && ltb now x.gone_at)) [
      | inl y ↦
          Lasts-mono h (now + 1) (x.gone_at - 0) sessions (ground arith)
            (b.0.backed h (ground (arith, eq_iff x.key (session_cache_key h))))
      | inr n ↦ find_entry-Lasts sessions now h es v b.1 (rw n at e)
    ]

-- The way through `_principal_from_cache` and `_user_from_session`, with no API key.
abbrev after_get : Env → Option String → Option Fields → Auth (Option Fields)
after_get env o cached = do
  by_session ← or_else env cached (session_by_cookie env o)
  or_else env by_session (pure none)

abbrev as_principal : Option Value → Option Fields
as_principal (some (object d)) = some d
as_principal _ = none

session_row-none :
    (env : Env) (h : String) (o : Option UserSession) (s : Store) {p : Fields}
    → ((session_row env h o >>= λ x. or_else env x (pure none)) s).0 ≡ ok (some p)
    → (row : UserSession) × (o ≡ some row)
session_row-none env h none s e = cc
session_row-none env h (some row) s e = (row, refl)

after_get-Lasts :
    (env : Env) (c : String) (x : Option Value) (s : Store) {p : Fields}
    → ((v : Value) → x ≡ some v → Lasts (hash_session_token env c) (env.now + 1) s.sessions)
    → (after_get env (some c) (as_principal x) s).0 ≡ ok (some p)
    → Lasts (hash_session_token env c) (env.now + 1) s.sessions
after_get-Lasts env c none s k e =
    let h : String = hash_session_token env c in
    let (row, found) = session_row-none env h (find_session env.now h s.sessions) s e in
    let (_, live, lasts) = find_session-Lasts 0 env.now h s.sessions found in
    Lasts-mono h (env.now + 1) row.expires_at s.sessions (omega arith) lasts
after_get-Lasts env c (some v) s k e = k v refl

-- Looking in the cache leaves the state as it is.
cached_session_lem :
    (env : Env) (c : String) (s : Store)
    → Backed 0 s
    → (x : Option Value) × (cached_session env (some c) s ≡ (ok x, s))
      × ((v : Value) → x ≡ some v → Lasts (hash_session_token env c) (env.now + 1) s.sessions)
unfolding auth_cache_get
cached_session_lem env c s b = elim (Bool-cases (env.connected && env.answers (get_call key))) [
  | inl y ↦ (found, rw y, λ v e. find_entry-Lasts s.sessions env.now h s.cache v b e)
  | inr n ↦ (none, rw n, λ v e. cc)
]
  where
    h : String
    h = hash_session_token env c

    key : String
    key = session_cache_key h

    found : Option Value
    found = find_entry env.now key s.cache

-- `find_principal`, from the request's cookie and key.
abbrev find_parts : Env → Option String → Option String → Auth (Option Fields)
find_parts env o t = do
  cached ← (cached_session env o >>= after_cookie env t)
  by_session ← or_else env cached (session_by_cookie env o)
  or_else env by_session (api_key_by_token env t)

find_principal_lem :
    (env : Env) (request : Request) (s : Store)
    → find_principal env request s
      ≡ find_parts env (usable_cookie env request) (bearer_key request.authorization) s
unfolding find_principal principal_from_cache user_from_session user_from_api_key
find_principal_lem env request s = refl

after_cookie-none :
    (env : Env) (x : Option Value) (s : Store)
    → after_cookie env none x s ≡ (ok (as_principal x), s)
after_cookie-none env (some (object d)) s = refl
after_cookie-none env _ s = refl

-- What `find_parts` does after a look in the cache that found `x`.
looked_up :
    (env : Env) (c : String) (m : Result Fault (Option Value) × Store) (x : Option Value)
    (s : Store)
    → m ≡ (ok x, s)
    → let a = continue m.0 (after_cookie env none) m.1 in
      continue a.0 (after_get env (some c)) a.1 ≡ after_get env (some c) (as_principal x) s
looked_up env c m x s e = rw e (rw (after_cookie-none env x s))

find_parts-Lasts :
    (env : Env) (c : String) (s : Store) {p : Fields}
    → Backed 0 s
    → (find_parts env (some c) none s).0 ≡ ok (some p)
    → Lasts (hash_session_token env c) (env.now + 1) s.sessions
find_parts-Lasts env c s b e =
    let (x, found, lasts) = cached_session_lem env c s b in
    after_get-Lasts env c x s lasts
      (rw (looked_up env c (cached_session env (some c) s) x s found) at e)

find_parts-some :
    (env : Env) (o : Option String) (s : Store) {p : Fields}
    → (find_parts env o none s).0 ≡ ok (some p)
    → (c : String) × (o ≡ some c)
find_parts-some env none s e = cc
find_parts-some env (some c) s e = (c, refl)

admit-some :
    (env : Env) (request : Request) (o : Option Fields) (s : Store) {p : Fields}
    → (admit env request o s).0 ≡ ok p
    → (q : Fields) × (o ≡ some q)
admit-some env request none s e = cc
admit-some env request (some q) s e = (q, refl)

served_parts :
    (env : Env) (request : Request) (s : Store) (q : Fields)
    → bearer_key request.authorization ≡ none
    → (find_principal env request s).0 ≡ ok (some q)
    → (c : String) × (usable_cookie env request ≡ some c)
      × ((find_parts env (some c) none s).0 ≡ ok (some q))
served_parts env request s q no_key e =
    let parts : (find_parts env (usable_cookie env request) none s).0 ≡ ok (some q) =
      subst (λ t. (find_parts env (usable_cookie env request) t s).0 ≡ ok (some q)) no_key
        (sym (ap (λ r. r.0) (find_principal_lem env request s)) ∙ e) in
    let (c, cookie) = find_parts-some env (usable_cookie env request) s parts in
    (c, cookie, subst (λ o. (find_parts env o none s).0 ≡ ok (some q)) cookie parts)

-- A request without an API key is answered as a user only by a session whose token the cookie
-- carries and which the database still holds beyond the present, from the cache too, provided each
-- cached session was set to be gone before its end.
pub served_session_live :
    (env : Env) (request : Request) (s : Store) (p : Fields)
    → bearer_key request.authorization ≡ none
    → Backed 0 s
    → (get_current_user env request s).0 ≡ ok p
    → (c : String) × (usable_cookie env request ≡ some c)
      × Lasts (hash_session_token env c) (env.now + 1) s.sessions
unfolding get_current_user
served_session_live env request s p no_key b h =
    let (o, found, admitted) = >>=-eq-ok (find_principal env request) (admit env request) s h in
    let (q, is_some_q) = admit-some env request o (find_principal env request s).1 admitted in
    let (c, cookie, parts) = served_parts env request s q no_key (found ∙ ap ok is_some_q) in
    (c, cookie, find_parts-Lasts env c s b parts)
