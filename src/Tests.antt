-- ===== src/Tests.antt =====
-- Runs of the models at concrete inputs.
mod Codec
mod Screens
mod Formats
mod Links
mod ToolCalls
mod Conversations
mod Saves
mod Streams
mod Loops
mod Transcripts
mod Prompts
mod Waits
mod Servers
mod Routes
mod Mcp
mod Starts
mod Posts
