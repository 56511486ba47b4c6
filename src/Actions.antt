-- ===== src/Actions.antt =====
-- internal/services/actions: the operations that change a cluster.
pub mod Idempotency
pub mod Requests
pub mod Validation
