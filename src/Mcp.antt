-- ===== src/Mcp.antt =====
-- mcp_stdio.py: the bridge between an MCP client on standard input and the server of the runtime.
pub mod Bridge
pub mod Titles
pub mod Replies
pub mod Requests
mod Tests
