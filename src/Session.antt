-- ===== src/Session.antt =====
-- internal/session: browser sessions, their memory store, and the token of their forms.
pub mod Memory
pub mod Csrf
pub mod Http
mod Tests
