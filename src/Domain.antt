-- ===== src/Domain.antt =====
-- internal/domain: the data of the portal and the rules that need no store.
pub mod Status
pub mod Application
pub mod User
pub mod Records
pub mod Library
pub mod Input
pub mod Lifecycle
