-- ===== src/Portal.antt =====
-- The state that the services share, and the logic in which their effects on it are stated.
pub mod World
pub mod Triple
pub mod Frame
pub mod Page
