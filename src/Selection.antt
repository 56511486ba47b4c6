-- ===== src/Selection.antt =====
-- internal/services/selection: the active cluster context and namespace scope.
pub mod Coordinator
pub mod State
