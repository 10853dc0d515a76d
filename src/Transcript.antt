-- ===== src/Transcript.antt =====
-- lib/transcript: the watcher of an agent's transcript file.
pub mod Tail
pub mod Claude
pub mod Codex
pub mod Watcher
pub mod Discover
