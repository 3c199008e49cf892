-- ===== src/Handlers.antt =====
-- internal/handlers: the handlers of the JSON API. The children have the handlers of players and
-- of sessions, and what is proved of them.
pub mod Steps
pub mod Player
pub mod Account
pub mod Files
pub mod Admin
