-- ===== src/Api.antt =====
-- internal/api: the state that the HTTP layer keeps.
pub mod Cursors
pub mod Session
