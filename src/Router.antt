-- ===== src/Router.antt =====
-- crates/bot-core/src/router.rs: the command router and the event router.
pub mod Commands
pub mod Events
mod Examples
