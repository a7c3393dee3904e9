-- ===== src/Access.antt =====
-- Who may call what: scopes, pinned collections, tenants, and the principal of a request
-- (api/bigrag/services/scopes.py, collection_scope.py, tenant_enforcement.py, middleware/auth.py).
pub mod Routes
pub mod Fault
pub mod Scopes
pub mod Collection
pub mod Tenant
pub mod Session
pub mod Principal
pub mod Current
mod Scenarios
