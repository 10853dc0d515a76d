-- ===== src/Msgfmt.antt =====
-- lib/msgfmt: how the text of a terminal becomes the message of an agent.
pub mod Agents
pub mod Whitespace
pub mod Subslice
pub mod Echo
pub mod Empty
pub mod Box
pub mod Format
pub mod ToolCall
pub mod Readiness
