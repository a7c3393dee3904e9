-- ===== src/Access/Scopes.antt =====
-- Scopes of API keys: api/bigrag/services/scopes.py.
pub mod Grants
pub mod Segments
use Prim.Native.String.{◌++◌}
use bigrag.Base.{
  String, ◌≡◌, refl, Bool, true, false, ◌&&◌, ◌||◌, not, Option, none, some, List, [], ◌∷◌, text_eq,
  if◌then◌else◌, ltb, ◌==◌, length, any_of,
}
use bigrag.Base.Text.{is_empty, has_char, split, rstrip, before, after, starts_with, ends_with_char}
use bigrag.Access.Routes.{Rule, endpoint_scopes}

-- A pattern's segment `{…}`, which any segment of a path fits.
unfoldable pub is_parameter : String → Bool
unfolding starts_with ends_with_char
is_parameter s = starts_with s "{" && ends_with_char b'}' s

-- The loop over `zip(p_parts, a_parts)`, which stops at the shorter list.
unfoldable pub segments_match : List String → List String → Bool
unfolding is_parameter
segments_match [] as' = true
segments_match (p ∷ ps) [] = true
segments_match (p ∷ ps) (a ∷ as') =
    let rest = segments_match ps as' in
    if is_parameter p then rest else if text_eq p a then rest else false

-- `_path_matches`
unfoldable pub path_matches : String → String → Bool
unfolding has_char rstrip split starts_with segments_match
path_matches path pattern_text =
    if not (has_char b'{' pattern_text)
    then (if text_eq path pattern_text
        then true
        else starts_with path (rstrip b'/' pattern_text ++ "/"))
    else (let p_parts = split b'/' (rstrip b'/' pattern_text) in
        let a_parts = split b'/' (rstrip b'/' path) in
        if ltb (length a_parts) (length p_parts)
        then false
        else if not (length a_parts == length p_parts)
        then false
        else segments_match p_parts a_parts)

-- The search of `required_scope` over a table.
unfoldable pub scope_in : List Rule → String → String → Option String
scope_in [] method path = none
scope_in (r ∷ rs) method path =
    let rest = scope_in rs method path in
    if not (text_eq r.method method)
    then rest
    else if path_matches path r.pattern_text
    then some r.scope
    else rest

unfoldable pub required_scope : String → String → Option String
unfolding endpoint_scopes scope_in path_matches
required_scope method path = scope_in endpoint_scopes method path

-- `x in ("*", y)`
abbrev star_or : String → String → Bool
star_or x y = text_eq x "*" || text_eq x y

unfoldable pub scope_matches : String → String → Bool
unfolding before after
scope_matches granted required =
    let g_res = before b':' granted in
    let g_act = after b':' granted in
    if is_empty g_res || is_empty g_act
    then false
    else if not (star_or g_res (before b':' required))
    then false
    else if not (star_or g_act (after b':' required))
    then false
    else true

-- No list of scopes, or an empty one, grants everything.
unfoldable pub has_scope : Option (List String) → String → Bool
unfolding scope_matches
has_scope none required = true
has_scope (some []) required = true
has_scope (some (g ∷ gs)) required = any_of (λ s. scope_matches s required) (g ∷ gs)

query_scope : required_scope "POST" "/v1/collections/docs/query" ≡ some "query:read"
unfolding required_scope
query_scope = refl

reindex_scope : required_scope "POST" "/v1/collections/docs/reindex" ≡ some "collection:write"
unfolding required_scope
reindex_scope = refl

models_scope : required_scope "GET" "/v1/embeddings/models" ≡ none
unfolding required_scope
models_scope = refl
