-- ===== src/Server.antt =====
-- server/: what the dashboard is sent.
pub mod DashboardHub
pub mod DashboardServer
mod Tests
