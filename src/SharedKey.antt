-- ===== src/SharedKey.antt =====
-- autorest/authorization_storage.go: the signature of requests to the storage services.
pub mod Sorting
pub mod Canonical
pub mod Maps
pub mod Orderless
pub mod Signing
mod Scenarios
