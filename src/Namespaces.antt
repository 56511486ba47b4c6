-- ===== src/Namespaces.antt =====
-- internal/services/namespaces: the namespaces that a scope names.
pub mod Parser
