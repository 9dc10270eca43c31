-- ===== src/Bearer.antt =====
-- autorest/authorization.go: the authorizer that adds a bearer token.
pub mod Authorize
pub mod Carried
