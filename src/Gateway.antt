-- ===== src/Gateway.antt =====
-- The MCP security gateway of task2_mcp_gateway/: authentication, envelope, policy, forwarding.
pub mod Auth
pub mod Policy
pub mod Rpc
pub mod Screen
pub mod Headers
pub mod Upstream
pub mod Proxy
