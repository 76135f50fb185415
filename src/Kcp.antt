-- ===== src/Kcp.antt =====
-- pkg/kcp: what spillway knows of the workspaces.
pub mod Metrics
pub mod Api
pub mod Groups
pub mod Discovery
pub mod Watch
