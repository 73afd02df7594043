-- ===== src/Router.antt =====
-- rust-sync-proxy/src/http/router.rs: the handlers, as functions from what the upstream answers to
-- what the client gets.
pub mod Poll
pub mod Output
