-- ===== src/Conversation.antt =====
-- lib/screentracker/conversation.go and pty_conversation.go: the conversation with an agent that runs
-- in a pseudo-terminal.
pub mod Messages
pub mod State
pub mod Threshold
pub mod Snapshots
pub mod Status
pub mod Send
pub mod Persistence
pub mod Loop
