-- ===== src/Respond.antt =====
-- autorest/responder.go, autorest/azure/azure.go: responders and what their decorators do with a
-- response.
pub mod Body
pub mod Decorators
pub mod Azure
pub mod Chain
pub mod Bodies
pub mod Closing
pub mod Unchanged
pub mod Statuses
pub mod Kept
pub mod Explained
mod Scenarios
