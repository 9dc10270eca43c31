-- ===== src/Adal.antt =====
-- autorest/adal: OAuth tokens of service principals and of the device flow.
pub mod Types
pub mod Secrets
pub mod Imds
pub mod Create
pub mod Refresh
pub mod Attempts
pub mod Refreshed
pub mod Granted
pub mod Expiring
pub mod Created
pub mod Goroutines
pub mod OneRefresh
pub mod Tenants
pub mod Tenanted
pub mod Progress
pub mod Device
pub mod Waiting
pub mod Ending
pub mod Flow
mod Scenarios
mod DeviceScenarios
mod BearerScenarios
mod TenantScenarios
