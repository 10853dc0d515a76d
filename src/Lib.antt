-- ===== src/Lib.antt =====
-- A model of the core of agentapi: an HTTP server that runs a coding agent in a pseudo-terminal,
-- reads its screen, makes a conversation of what it shows, and tells its clients of every change.
--
-- The parts and how they interact. A loop reads the screen of the agent at a fixed interval. Every
-- screen goes into a circular buffer, and the part of it that is new since the last message of the
-- user is formatted (the echo of the user's input and the input box are cut off) and becomes the
-- last message of the agent. The status is "stable" when the buffer is full of one screen; only
-- then does the conversation take a message. The emitter compares the messages, the status and the
-- screen to what it has sent before, and puts the changes into the channels of its subscribers.
--
--   RingBuffer    lib/screentracker/ringbuffer.go: NewRingBuffer, Add, GetAll and Capacity are
--                 new_ring_buffer, add, get_all and capacity.
--   ScreenDiff    lib/screentracker/diff.go: screenDiff is screen_diff.
--   Msgfmt        lib/msgfmt: msgfmt.go is in Msgfmt.Echo, Msgfmt.Subslice, Msgfmt.Empty and
--                 Msgfmt.Format, message_box.go in Msgfmt.Box, agent_readiness.go in Msgfmt.Readiness,
--                 format_tool_call.go in Msgfmt.ToolCall.
--   Conversation  lib/screentracker/conversation.go and pty_conversation.go: the state is the record
--                 PtyConversation of Conversation.State; snapshotLocked and
--                 updateLastAgentMessageLocked are snapshot and update_last_agent_message of
--                 Conversation.Snapshots; statusLocked is status of Conversation.Status; Send and
--                 sendMessage are send_error, enqueue, begin_message, fail_message and finish_message
--                 of Conversation.Send, with FormatMessage of lib/httpapi/claude.go; SaveState and
--                 loadStateLocked are save_state and load_state_locked of Conversation.Persistence,
--                 over files as a function from paths to contents and a record of the calls that
--                 fail; the tick of Start and the steps of its send loop are in Conversation.Loop, and
--                 Conversation.Loop.Steps lets the loops and the callers interleave.
--   Events        lib/httpapi/events.go: the state is the record EventEmitter of Events.Types, the
--                 operations are in Events.Emitter.
--   Transcript    lib/transcript: the tailer of tail.go is the record Tailer of Transcript.Tail, with
--                 Drain as drain; the Watcher of watcher.go is in Transcript.Watcher, with a tick of
--                 its loop as watch_tick; the parsers are in Transcript.Claude and Transcript.Codex,
--                 the search of discover.go in Transcript.Discover.
--   Acp           x/acpio: acp_conversation.go is the record AcpConversation, with Send as send,
--                 handleChunk as handle_chunk and executePrompt as drain_signal, write_parts and
--                 end_prompt; Acp.Steps lets callers and chunks interleave. acpio.go is in
--                 Acp.AgentIo; the calls of SessionUpdate, which run at the same time, are the steps of
--                 Acp.AgentIo.Delivery.
--   Wait          lib/util/util.go: WaitFor is wait_for. writeStabilize of pty_conversation.go, which
--                 waits by it, is write_stabilize of Conversation.Send.Stabilize.
--   Http          lib/httpapi/server.go and internal/middleware/auth.go: the checks before a handler
--                 runs are in Http.Hosts, Http.Auth and Http.Access. subscribeEvents and
--                 subscribeScreen, which stream the events of a subscription of Events, are
--                 subscribe_events and subscribe_screen of Http.Stream. lib/httpapi/links.go is Http.Links:
--                 getLinks is get_links, its regular expressions are functions on a text. getMcp and
--                 updateMcp of lib/httpapi/mcp.go are get_mcp and update_mcp of Http.Mcp, over the store
--                 of McpConfig and whatever restarts the agent. getStatus, getMessages and createMessage
--                 are get_status, get_messages and create_message of Http.Messages.
--   McpConfig     lib/mcpconfig: the interface Store of mcpconfig.go is the record of McpConfig.Store,
--                 with the stores of Claude and Codex. For codex.go, Replace is replace of
--                 McpConfig.Codex, its regular expressions are functions in McpConfig.Patterns; for
--                 claude.go, Read and Replace are read and replace of McpConfig.Claude.
--   Terminal      lib/termexec/termexec.go: ReadScreen is read_screen.
--   Supervisor    cmd/server/server.go: the state is the record ServerRun; Restart of the supervisor is
--                 restart, a round of the goroutine that waits for the agent is monitor, and the end of
--                 runServer, from its first select on, is shut_down. Supervisor.Step lets these and the processes interleave.
--   Startup       cmd/server/server.go: the checks of runServer are start_options, with parseAgentType
--                 as parse_agent_type; writePIDFile and cleanupPIDFile are in Startup.PidFile.
--   Routing       internal/routing/agent_bifrost.go: RouteRequest is route_request, getRule, SetRule and
--                 getOrCreateSession are get_rule, set_rule and get_or_create_session.
--   Strings, Prelude  what the source uses of Go's strings package, and the shared lemmas.
--   Tests         runs at concrete inputs.
--
-- How the code is modelled. A string is the list of its code points; where the code counts bytes,
-- so does the model. A Go panic (an index out of range, a division by zero, the close of a nil
-- channel) is the result `none` of an Option. A pointer receiver is passed and returned. Times are
-- natural numbers. An `int` that holds an index is a natural number, with -1 as `none`; the indices
-- stay below the length of a slice, so that they do not overflow. A function in a configuration is
-- a function argument, and so are the encoder and the decoder of the JSON package. The methods of
-- the conversation and of the emitter hold a lock, so each is one step; sendMessage, which releases
-- it during the write, is two steps, between which snapshots may come.
--
-- Fuel. The endless loop of findUserInputEndIdx runs on the length of the message: every round
-- moves forward in the message, so this is enough. The loop of WaitFor runs on the timeout and two:
-- every round takes an interval of the timeout, of a nanosecond or more. The loop of trimURL runs on
-- the number of its opening parentheses: every round closes one. The loop for a new
-- session's identifier runs on the number of sessions and one: the first round ends it if the clock is past
-- the earlier identifiers. The other loops run over a
-- list or over a number of rounds.
--
-- Time. The waits of WaitFor and writeStabilize happen on a clock that only they, the condition, and the
-- reads and writes of the terminal move; where several channels of a select are ready, an argument of the model chooses. Durations
-- are below 2^62 nanoseconds, so that doubling an interval does not overflow. While a file is read, it does not
-- shrink.
--
-- What is not modelled: the end of the loops of pty_conversation.go, the other handlers of the HTTP routes,
-- the rest of the terminal, the benchmark store, the harnesses and the other commands; of the parts above, what reads
-- the environment or starts processes. Logging and JSON schemas have no part in the behaviour that is
-- modelled.
pub mod Prelude
pub mod Strings
pub mod RingBuffer
pub mod Msgfmt
pub mod ScreenDiff
pub mod Conversation
pub mod Events
pub mod Transcript
pub mod Acp
pub mod Wait
pub mod Routing
pub mod Terminal
pub mod Supervisor
pub mod Startup
pub mod Http
pub mod McpConfig
mod Tests
