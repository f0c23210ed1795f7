-- ===== src/Store.antt =====
-- internal/store and internal/store/memory: the repositories, each as the state that its mutex guards
-- and the methods as functions of that state. A method holds the lock from its first line to its
-- last, so calls do not interleave inside one another.
pub mod Applications
pub mod Users
pub mod Consents
pub mod Outbox
pub mod Audit
mod Tests
