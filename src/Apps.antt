-- ===== src/Apps.antt =====
-- internal/apps: what owners do with their applications, and the worker that provisions them.
pub mod Input
pub mod Deps
pub mod Service
pub mod Secrets
pub mod Provisioner
pub mod Evolution
