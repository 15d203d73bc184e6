-- ===== src/Handlers.antt =====
-- backend/gateway/internal/handlers: one module for each file of handlers.
pub mod Request
pub mod Grants
pub mod Auth
pub mod Mfa
pub mod Org
pub mod Analyses
pub mod Dashboard
pub mod Uploads
pub mod Refusals
pub mod Operator
