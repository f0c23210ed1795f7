-- ===== src/Turnstile.antt =====
-- internal/turnstile: the check that a form was sent by a person.
pub mod Validator
mod Tests
