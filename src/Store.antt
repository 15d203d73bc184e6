-- ===== src/Store.antt =====
-- backend/gateway/internal/store: the rows and tables (`Tables`), and the queries of each resource.
pub mod Tables
pub mod Grants
pub mod Ingest
pub mod Findings
pub mod Dashboard
pub mod Series
pub mod Users
pub mod Uploads
pub mod Mfa
pub mod Analyses
pub mod Rules
