-- ===== src/Oauth.antt =====
-- internal/oauth: what the portal checks of OAuth requests and grants.
pub mod Scopes
pub mod Request
pub mod Parse
pub mod Accepted
pub mod Login
pub mod Grant
pub mod LoginSafety
pub mod Consent
pub mod ConsentSafety
pub mod Granted
pub mod ConsentEnd
pub mod Withdrawn
pub mod UserInfo
pub mod Scoped
pub mod Released
pub mod Http
pub mod Decided
pub mod Fixture
mod Tests
mod ServiceTests
mod HttpTests
