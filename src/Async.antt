-- ===== src/Async.antt =====
-- autorest/azure/async.go: the polling tracker of a long-running operation.
pub mod Tracker
pub mod Body
pub mod State
pub mod Headers
pub mod Verbs
pub mod Create
pub mod Future
pub mod Wait
pub mod Frames
pub mod Failure
pub mod Done
pub mod Creation
pub mod Unreported
pub mod Urls
pub mod Polled
pub mod Waiting
pub mod NoTracker
pub mod Ending
pub mod Reachable
pub mod NullBody
mod Runs
mod Scenarios
