-- ===== src/Runner.antt =====
-- internal/runner: jobs and their execution, one environment after the other.
pub mod Job
pub mod Host
pub mod Files
pub mod Credentials
pub mod Execute
pub mod Jobs
pub mod Listing
pub mod Sharing
