-- ===== src/Reviews.antt =====
-- internal/reviews: what reviewers decide about submitted applications.
pub mod Service
pub mod Forms
pub mod Http
pub mod Decided
pub mod Overview
pub mod OverviewPage
pub mod Evolution
mod HttpTests
