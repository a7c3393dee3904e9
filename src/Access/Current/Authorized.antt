-- ===== src/Access/Current/Authorized.antt =====
-- What a request has passed when `get_current_user` returns a principal.
use bigrag.Base.{
  String, ◌≡◌, inl, inr, refl, Bool, true, false, ◌&&◌, Option, none, some, List, [], ◌∷◌, Any,
  eq_iff, if◌then◌else◌, arith, Bool-cases,
}
use bigrag.Base.Text.{has_char, split, strip, rstrip}
use bigrag.Base.Text.Partition.{joined}
use bigrag.Base.Json.{text, array, Items, nil, cons, Fields, lookup, nonempty_text}
use bigrag.Base.Result.{Result, ok, err, ◌>>◌, raise_if}
use bigrag.Base.Exec.{>>=-eq-ok}
use bigrag.Access.Fault.{Fault}
use bigrag.Access.Scopes.{required_scope, scope_matches}
use bigrag.Access.Scopes.Grants.{Grants, scope_matches-Grants}
use bigrag.Access.Collection.{
  extract_collection_name, is_forbidden, enforce_collection_scope, assert_collection_matches_pin,
  check_target, is_root, reconfigures,
}
use bigrag.Access.Session.{Env, Store}
use bigrag.Access.Principal.{Request, is_api_key_principal}
use bigrag.Access.Current.{
  find_principal, admit, any_grants, principal_has_scope, check_scope, check_pin, get_current_user,
}

-- A JSON list of texts.
abbrev pub texts : List String → Items
texts [] = nil
texts (s ∷ ss) = cons (text s) (texts ss)

any_grants-cons :
    (g : String) (vs : Items) (required : String)
    → any_grants (cons (text g) vs) required
      ≡ (if scope_matches g required then ok true else any_grants vs required)
unfolding any_grants
any_grants-cons g vs required = ground arith

any_grants-nil : (required : String) → any_grants nil required ≡ ok false
unfolding any_grants
any_grants-nil required = refl

any_grants-Any :
    (res act : String) (gs : List String)
    → has_char b':' res ≡ false
    → any_grants (texts gs) (joined res act) ≡ ok true
    → Any (Grants res act) gs
any_grants-Any res act [] h e = cc (any_grants-nil (joined res act))
any_grants-Any res act (g ∷ gs) h e = elim (Bool-cases (scope_matches g (joined res act))) [
  | inl m ↦ inl (scope_matches-Grants res act g h m)
  | inr m ↦
      inr (
        any_grants-Any res act gs h (ground (arith, any_grants-cons g (texts gs) (joined res act))))
]

-- The scope check, by what it looks up.
check_scope-scopes :
    (request : Request) (p : Fields) (required g : String) (gs : List String)
    → is_api_key_principal p ≡ true
    → required_scope request.method request.path ≡ some required
    → lookup "scopes" p ≡ some (array (texts (g ∷ gs)))
    → check_scope request p ≡ ok tt
    → any_grants (texts (g ∷ gs)) required ≡ ok true
unfolding check_scope principal_has_scope
check_scope-scopes request p required g gs key need has passed = ground arith

-- The path is that of a collection itself, or of the list of collections.
abbrev pub root_of : String → Bool
root_of path = is_root (split b'/' (strip b'/' (rstrip b'/' path)))

-- What a request by the principal `p` has been checked for.
pub record Authorized (request : Request) (p : Fields) : Type 0 where
  -- An API key with scopes has one that grants what the endpoint needs.
  pub scoped :
      (res act g : String) (gs : List String)
      → is_api_key_principal p ≡ true
      → required_scope request.method request.path ≡ some (joined res act)
      → has_char b':' res ≡ false
      → lookup "scopes" p ≡ some (array (texts (g ∷ gs)))
      → Any (Grants res act) (g ∷ gs)
  -- A pinned key names its own collection, or none.
  pub pinned :
      (c target : String)
      → nonempty_text (lookup "collection" p) ≡ some c
      → extract_collection_name request.path ≡ some target
      → target ≡ c
  -- It uses no endpoint across collections, and does not change or delete a collection itself.
  pub within :
      (c : String)
      → nonempty_text (lookup "collection" p) ≡ some c
      → (is_forbidden request.method (rstrip b'/' request.path) ≡ false)
        × ((root_of request.path && reconfigures request.method) ≡ false)

three_checks :
    (a : Bool) (m : Result Fault (Unit {0})) (b : Bool) (e f : Fault)
    → (raise_if a e >> (m >> raise_if b f)) ≡ ok tt
    → (a ≡ false) × (m ≡ ok tt) × (b ≡ false)
three_checks true m b e f h = cc
three_checks false (err x) b e f h = cc
three_checks false (ok tt) true e f h = cc
three_checks false (ok tt) false e f h = (refl, refl, refl)

pin_checks :
    (method path c : String)
    → enforce_collection_scope method path c ≡ ok tt
    → (is_forbidden method (rstrip b'/' path) ≡ false)
      × (check_target c (extract_collection_name path) ≡ ok tt)
      × ((root_of path && reconfigures method) ≡ false)
unfolding enforce_collection_scope
pin_checks method path c h = three_checks _ _ _ _ _ h

target_pinned :
    (c target : String) (o : Option String)
    → o ≡ some target
    → check_target c o ≡ ok tt
    → target ≡ c
unfolding assert_collection_matches_pin
target_pinned c target none e h = cc
target_pinned c target (some t) e h = ground (arith, eq_iff t c)

check_pin-some :
    (request : Request) (p : Fields) (c : String)
    → nonempty_text (lookup "collection" p) ≡ some c
    → check_pin request p ≡ ok tt
    → enforce_collection_scope request.method request.path c ≡ ok tt
unfolding check_pin
check_pin-some request p c e h = ground arith

admitted :
    (env : Env) (request : Request) (o : Option Fields) (s : Store) (p : Fields)
    → (admit env request o s).0 ≡ ok p
    → (check_scope request p ≡ ok tt) × (check_pin request p ≡ ok tt)
admitted env request none s p h = cc
admitted env request (some q) s p h = ground arith

-- A principal that `get_current_user` returns is authorised for the request.
pub get_current_user-Authorized :
    (env : Env) (request : Request) (s : Store) (p : Fields)
    → (get_current_user env request s).0 ≡ ok p
    → Authorized request p
unfolding get_current_user
get_current_user-Authorized env request s p h = record {
  scoped = λ res act g gs key need plain has.
      any_grants-Any res act (g ∷ gs) plain
        (check_scope-scopes request p (joined res act) g gs key need has passed.0);
  pinned = λ c target e named. target_pinned c target _ named (pins c e).1;
  within = λ c e. ((pins c e).0, (pins c e).2);
}
  where
    found :
        (o : Option Fields) × ((find_principal env request s).0 ≡ ok o)
        × ((admit env request o (find_principal env request s).1).0 ≡ ok p)
    found = >>=-eq-ok (find_principal env request) (admit env request) s h

    passed : (check_scope request p ≡ ok tt) × (check_pin request p ≡ ok tt)
    passed = admitted env request found.0 _ p found.2

    pins :
        (c : String)
        → nonempty_text (lookup "collection" p) ≡ some c
        → (is_forbidden request.method (rstrip b'/' request.path) ≡ false)
          × (check_target c (extract_collection_name request.path) ≡ ok tt)
          × ((root_of request.path && reconfigures request.method) ≡ false)
    pins c e = pin_checks _ _ c (check_pin-some request p c e passed.1)
