-- ===== src/Web.antt =====
-- internal/web: the forms, the handlers and the routes.
pub mod Form
pub mod View
pub mod App
pub mod Environments
pub mod Jobs
pub mod Monitor
pub mod Routes
pub mod Start
