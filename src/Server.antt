-- ===== src/Server.antt =====
-- pkg/cmd/server: the configuration of the server.
pub mod Workspaces
pub mod Options
mod Tests
