-- ===== src/Hydra.antt =====
-- internal/hydra/client.go: the requests and answers that pass between the portal and Ory Hydra.
pub mod Client
