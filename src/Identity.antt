-- ===== src/Identity.antt =====
-- internal/identity: users, their status, and the signed messages that pass between the portal and
-- Discourse.
pub mod UserSnapshot
pub mod StatusSnapshot
pub mod Nonces
pub mod FirstUse
pub mod Verifier
pub mod Replay
pub mod Directory
pub mod Refresher
pub mod Refreshed
pub mod Rights
pub mod Shadow
pub mod SignedIn
pub mod SsoChecks
pub mod Sso
pub mod Events
pub mod Updated
pub mod Received
pub mod Calls
pub mod Progress
pub mod Promotion
pub mod Promoted
pub mod Validated
pub mod ProgressLookup
pub mod Shown
pub mod Accepted
mod Tests
mod SsoTests
mod ServiceTests
mod ProgressTests
