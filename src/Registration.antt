-- ===== src/Registration.antt =====
-- autorest/azure/rp.go: senders that register a resource provider.
pub mod Requests
pub mod Register
pub mod Retry
pub mod Registered
pub mod Ending
pub mod Retried
mod Scenarios
