-- ===== src/Handler.antt =====
-- internal/handler: the HTTP handlers of /v1. A handler is given what BindAndValidate returns, the
-- request or `none` for an error, and the tenant id that the middleware set. That hertz reads the body
-- is outside; its checks by the `vd` tags are Handler/Valid.
pub mod Sender
pub mod Status
pub mod Inbox
pub mod Hub
pub mod Login
pub mod Valid
pub mod Routes
pub mod Tenant
pub mod Tests
