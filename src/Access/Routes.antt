-- ===== src/Access/Routes.antt =====
-- The endpoint table of api/bigrag/services/scopes.py.
use bigrag.Base.{String, List, [], ◌∷◌}

pub record Rule : Type 0 where
  pub method : String
  pub pattern_text : String
  pub scope : String

abbrev rule : String → String → String → Rule
rule m p s = record { method = m; pattern_text = p; scope = s }

-- `_ENDPOINT_SCOPES`, in the order in which it is searched
unfoldable pub endpoint_scopes : List Rule
endpoint_scopes =
    rule "GET" "/v1/chat/question-suggestions" "chat:read"
    ∷ rule "POST" "/v1/chat/question-suggestions" "chat:write"
    ∷ rule "POST" "/v1/chat" "chat:write"
    ∷ rule "POST" "/v1/collections/{name}/query" "query:read"
    ∷ rule "POST" "/v1/query" "query:read"
    ∷ rule "POST" "/v1/batch/query" "query:read"
    ∷ rule "POST" "/v1/collections/{name}/documents/batch/upload" "document:upload"
    ∷ rule "POST" "/v1/collections/{name}/documents/batch/status" "document:read"
    ∷ rule "POST" "/v1/collections/{name}/documents/batch/get" "document:read"
    ∷ rule "POST" "/v1/collections/{name}/documents/batch/delete" "document:delete"
    ∷ rule "POST" "/v1/collections/{name}/upload-sessions/{id}/files" "document:upload"
    ∷ rule "POST" "/v1/collections/{name}/upload-sessions/{id}/complete" "document:upload"
    ∷ rule "POST" "/v1/collections/{name}/upload-sessions/{id}/cancel" "document:delete"
    ∷ rule "POST" "/v1/collections/{name}/upload-sessions" "document:upload"
    ∷ rule "GET" "/v1/collections/{name}/upload-sessions/{id}" "document:read"
    ∷ rule "POST" "/v1/collections/{name}/documents" "document:upload"
    ∷ rule "GET" "/v1/collections/{name}/documents" "document:read"
    ∷ rule "GET" "/v1/collections/{name}/documents/{id}" "document:read"
    ∷ rule "DELETE" "/v1/collections/{name}/documents/{id}" "document:delete"
    ∷ rule "GET" "/v1/collections/{name}/documents/{id}/elements" "document:read"
    ∷ rule "GET" "/v1/collections/{name}/documents/{id}/chunks" "document:read"
    ∷ rule "POST" "/v1/collections/{name}/truncate" "collection:delete"
    ∷ rule "POST" "/v1/collections/{name}/vectors/upsert" "vector:write"
    ∷ rule "POST" "/v1/collections/{name}/vectors/delete" "vector:delete"
    ∷ rule "GET" "/v1/collections/{name}/analytics" "collection:read"
    ∷ rule "GET" "/v1/documents/{id}/chunks" "document:read"
    ∷ rule "GET" "/v1/documents/{id}" "document:read"
    ∷ rule "GET" "/v1/documents/" "document:read"
    ∷ rule "POST" "/v1/evaluation" "query:read"
    ∷ rule "POST" "/v1/admin/webhooks" "webhook:write"
    ∷ rule "PUT" "/v1/admin/webhooks/{id}" "webhook:write"
    ∷ rule "DELETE" "/v1/admin/webhooks/{id}" "webhook:write"
    ∷ rule "POST" "/v1/admin/webhooks/{id}/test" "webhook:write"
    ∷ rule "POST" "/v1/admin/webhooks/{id}/deliveries/{delivery_id}/replay" "webhook:write"
    ∷ rule "GET" "/v1/admin/webhooks" "webhook:read"
    ∷ rule "GET" "/v1/admin/webhooks/{id}" "webhook:read"
    ∷ rule "GET" "/v1/admin/webhooks/{id}/deliveries" "webhook:read"
    ∷ rule "GET" "/v1/usage" "audit:read"
    ∷ rule "GET" "/v1/status/overview" "collection:read"
    ∷ rule "GET" "/v1/status/collections" "collection:read"
    ∷ rule "GET" "/v1/status/usage" "audit:read"
    ∷ rule "GET" "/v1/admin/audit" "audit:read"
    ∷ rule "GET" "/v1/admin/status/access" "audit:read"
    ∷ rule "GET" "/v1/admin/access/overview" "audit:read"
    ∷ rule "GET" "/v1/admin/access/logs" "audit:read"
    ∷ rule "POST" "/v1/collections" "collection:write"
    ∷ rule "PUT" "/v1/collections/" "collection:write"
    ∷ rule "DELETE" "/v1/collections/" "collection:delete"
    ∷ rule "GET" "/v1/collections" "collection:read"
    ∷ []
