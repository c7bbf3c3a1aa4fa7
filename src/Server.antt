-- ===== src/Server.antt =====
-- The MCP server of task1_mcp_server/.
pub mod Store
pub mod Tools
pub mod Frames
pub mod Drain
pub mod Session
