-- ===== src/Access/Collection.antt =====
-- Keys pinned to one collection: api/bigrag/services/collection_scope.py.
use bigrag.Base.{
  String, ◌≡◌, refl, Bool, false, ◌&&◌, ◌||◌, not, Option, none, some, List, [], ◌∷◌, text_eq,
  if◌then◌else◌, any_of,
}
use bigrag.Base.Text.{split, strip, rstrip}
use bigrag.Base.Result.{Result, ok, err, ◌>>◌, raise_if}
use bigrag.Access.Fault.{Fault, cross_collection, wrong_collection, reconfigure}

-- `_FORBIDDEN_FOR_SCOPED`
unfoldable pub forbidden_for_scoped : List (String × String)
forbidden_for_scoped =
    ("POST", "/v1/query")
    ∷ ("POST", "/v1/batch/query")
    ∷ ("POST", "/v1/collections")
    ∷ ("PUT", "/v1/collections/")
    ∷ ("DELETE", "/v1/collections/")
    ∷ ("GET", "/v1/collections")
    ∷ ("GET", "/v1/usage")
    ∷ ("GET", "/v1/stats")
    ∷ ("GET", "/v1/status/overview")
    ∷ ("GET", "/v1/status/collections")
    ∷ ("GET", "/v1/status/usage")
    ∷ ("GET", "/v1/embeddings/models")
    ∷ []

-- `(method, path) in _FORBIDDEN_FOR_SCOPED_SET`
unfoldable pub is_forbidden : String → String → Bool
unfolding forbidden_for_scoped
is_forbidden method path = any_of (λ r. text_eq r.0 method && text_eq r.1 path) forbidden_for_scoped

abbrev name_in : List String → Option String
name_in (v ∷ c ∷ name ∷ rest) =
    if not (text_eq v "v1") || not (text_eq c "collections") then none else some name
name_in _ = none

-- `_extract_collection_name`
unfoldable pub extract_collection_name : String → Option String
unfolding strip split
extract_collection_name path = name_in (split b'/' (strip b'/' path))

unfoldable pub assert_collection_matches_pin : String → String → Result Fault (Unit {0})
assert_collection_matches_pin pinned target =
    raise_if (not (text_eq target pinned)) wrong_collection

abbrev pub is_root : List String → Bool
is_root (v ∷ c ∷ name ∷ []) = text_eq v "v1" && text_eq c "collections"
is_root (v ∷ c ∷ []) = text_eq c "collections"
is_root _ = false

-- `_FORBIDDEN_METHODS_ON_PINNED_COLLECTION`
abbrev pub reconfigures : String → Bool
reconfigures method = text_eq method "PUT" || text_eq method "DELETE"

abbrev pub check_target : String → Option String → Result Fault (Unit {0})
check_target pinned none = ok tt
check_target pinned (some target) = assert_collection_matches_pin pinned target

-- The request's method and path, and the collection to which the key is pinned.
unfoldable pub enforce_collection_scope : String → String → String → Result Fault (Unit {0})
unfolding is_forbidden extract_collection_name assert_collection_matches_pin rstrip strip split
enforce_collection_scope method path pinned = do
  let stripped = rstrip b'/' path
  raise_if (is_forbidden method stripped) cross_collection
  check_target pinned (extract_collection_name path)
  let parts = split b'/' (strip b'/' stripped)
  raise_if (is_root parts && reconfigures method) reconfigure

query_own : enforce_collection_scope "POST" "/v1/collections/docs/query" "docs" ≡ ok tt
unfolding enforce_collection_scope is_forbidden extract_collection_name
    assert_collection_matches_pin rstrip strip split
query_own = refl

query_other :
    enforce_collection_scope "POST" "/v1/collections/other/query" "docs" ≡ err wrong_collection
unfolding enforce_collection_scope is_forbidden extract_collection_name
    assert_collection_matches_pin rstrip strip split
query_other = refl

list_all : enforce_collection_scope "GET" "/v1/collections/" "docs" ≡ err cross_collection
unfolding enforce_collection_scope is_forbidden extract_collection_name
    assert_collection_matches_pin rstrip strip split
list_all = refl

delete_own : enforce_collection_scope "DELETE" "/v1/collections/docs" "docs" ≡ err reconfigure
unfolding enforce_collection_scope is_forbidden extract_collection_name
    assert_collection_matches_pin rstrip strip split
delete_own = refl
