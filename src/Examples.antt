-- ===== src/Examples.antt =====
-- Concrete runs: a small organization, and the theorems at inputs of it.
pub mod Sample
mod Access
mod Signin
pub mod Files
mod Figures
mod Requests
mod Process
mod Registration
mod Edge
mod Limits
mod Commands
