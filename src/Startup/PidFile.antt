-- ===== src/Startup/PidFile.antt =====
-- cmd/server/server.go: `writePIDFile` and `cleanupPIDFile`. What the file system does, and whether a
-- process runs, are arguments.
pub mod Owner
use agentapi_plusplus.Events.Types.{ℤ, pos, negsuc}
use agentapi_plusplus.McpConfig.Codex.{ConfigFile, content, absent, unreadable}
use agentapi_plusplus.Prelude.{
  ℕ, Bool, true, false, ◌&&◌, ◌∷◌, [], ◌++◌, Option, none, some, ◌==◌, if◌then◌else◌, Text,
}
use agentapi_plusplus.Startup.Decimal.{to_decimal, atoi}
use agentapi_plusplus.Strings.{trim_space}

-- The content of the file of a process.
unfoldable pub pid_content : ℕ → Text
unfolding to_decimal
pid_content pid = to_decimal pid ++ b'\n' ∷ []

unfoldable pub read_pid : Text → Option ℤ
unfolding atoi trim_space
read_pid text = atoi (trim_space text)

pub data PidWrite : Type 0 where
  no_directory cannot_read cannot_write : PidWrite
  already_running : ℤ → PidWrite
  wrote : Text → PidWrite

abbrev pub write_pid : ℕ → Bool → PidWrite
write_pid pid true = wrote (pid_content pid)
write_pid pid false = cannot_write

-- On the identifier that the file holds, if it holds one.
abbrev pub unless_running : (ℤ → Bool) → ℕ → Bool → Option ℤ → PidWrite
unless_running is_running pid writes none = write_pid pid writes
unless_running is_running pid writes (some other) =
    if is_running other then already_running other else write_pid pid writes

abbrev pub check_existing : (ℤ → Bool) → ℕ → Bool → ConfigFile → PidWrite
check_existing is_running pid writes (content text) =
    unless_running is_running pid writes (read_pid text)
check_existing is_running pid writes absent = write_pid pid writes
check_existing is_running pid writes unreadable = cannot_read

unfoldable pub write_pid_file : Bool → (ℤ → Bool) → ℕ → Bool → ConfigFile → PidWrite
unfolding pid_content read_pid
write_pid_file made_directory is_running pid writes file =
    if made_directory then check_existing is_running pid writes file else no_directory

abbrev pub is_own : ℕ → Option ℤ → Bool
is_own pid (some (pos n)) = n == pid
is_own pid _ = false

-- Whether the file is removed.
unfoldable pub cleanup_pid_file : ℕ → ConfigFile → Bool
unfolding read_pid
cleanup_pid_file pid (content text) = is_own pid (read_pid text)
cleanup_pid_file pid _ = false
