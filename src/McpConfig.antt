-- ===== src/McpConfig.antt =====
-- lib/mcpconfig/codex.go: the servers in the configuration of Codex, replaced line by line.
pub mod Patterns
pub mod Codex
pub mod Claude
pub mod Store
