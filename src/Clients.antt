-- ===== src/Clients.antt =====
-- autorest/client.go: clients, and the authorizers that they are given.
pub mod Client
pub mod Authorizers
pub mod Answered
pub mod Signed
pub mod Challenged
mod Scenarios
