-- ===== src/Startup/PidFile/Owner.antt =====
-- cmd/server/server.go: the process that a PID file belongs to.
use agentapi_plusplus.Events.Types.{ℤ, pos}
use agentapi_plusplus.McpConfig.Codex.{content}
use agentapi_plusplus.Prelude.{
  ℕ, suc, ◌≤◌, ◌≡◌, ◌≢◌, refl, ap, ◌∙◌, Bool, true, false, [], ◌∷◌, ◌++◌, some, ==_iff,
  if◌then◌else◌, is_nil, arith, Text,
}
use agentapi_plusplus.Startup.Decimal.{
  to_decimal, is_digit, max_int, atoi, AreDigits, digits_of-AreDigits, atoi-to_decimal,
}
use agentapi_plusplus.Startup.PidFile.{
  pid_content, read_pid, already_running, wrote, unless_running, write_pid_file, is_own,
  cleanup_pid_file,
}
use agentapi_plusplus.Strings.{is_space, trim_left, trim_right, keep_head, trim, trim_space}

digit-no_space : (c : ℕ) → is_digit c ≡ true → is_space c ≡ false
unfolding is_digit is_space
digit-no_space c h = ground arith

keep_head-digit : (c : ℕ) (s : Text) → is_space c ≡ false → keep_head is_space c s ≡ c ∷ s
keep_head-digit c [] h = rw h refl
keep_head-digit c (d ∷ s) h = refl

trim_right-digits : (s : Text) → AreDigits s → trim_right is_space (s ++ b'\n' ∷ []) ≡ s
unfolding trim_right is_space
trim_right-digits [] h = refl
trim_right-digits (c ∷ s) h =
    ap (keep_head is_space c) (trim_right-digits s h.1) ∙ keep_head-digit c s (digit-no_space c h.0)

trim_left-digits :
    (s : Text)
    → AreDigits s
    → trim_left is_space (s ++ b'\n' ∷ []) ≡ (if is_nil s then [] else s ++ b'\n' ∷ [])
unfolding trim_left is_space
trim_left-digits [] h = refl
trim_left-digits (c ∷ s) h = rw (digit-no_space c h.0) refl

trim_right-nil : trim_right is_space [] ≡ []
unfolding trim_right
trim_right-nil = refl

to_decimal-AreDigits : (n : ℕ) → AreDigits (to_decimal n)
unfolding to_decimal
to_decimal-AreDigits n = digits_of-AreDigits (suc n) n

trim-digits : (s : Text) → AreDigits s → trim_space (s ++ b'\n' ∷ []) ≡ s
unfolding trim_space trim
trim-digits [] h = ap (trim_right is_space) (trim_left-digits [] h) ∙ trim_right-nil
trim-digits (c ∷ s) h =
    ap (trim_right is_space) (trim_left-digits (c ∷ s) h) ∙ trim_right-digits (c ∷ s) h

read_own : (pid : ℕ) → pid ≤ max_int → read_pid (pid_content pid) ≡ some (pos pid)
unfolding read_pid pid_content
read_own pid m =
    ap atoi (trim-digits (to_decimal pid) (to_decimal-AreDigits pid)) ∙ atoi-to_decimal pid m

-- The file that a server writes names its process, whose identifier is an `int`. That process removes the
-- file at its end and another does not; and while the process runs, another server does not start and
-- leaves the file, but takes it over once the process has ended.
pub pid_file_lem :
    (is_running : ℤ → Bool) (pid other : ℕ)
    → pid ≤ max_int
    → other ≢ pid
    → (cleanup_pid_file pid (content (pid_content pid)) ≡ true)
      × (cleanup_pid_file other (content (pid_content pid)) ≡ false)
      × (is_running (pos pid) ≡ true
          → write_pid_file true is_running other true (content (pid_content pid))
            ≡ already_running (pos pid))
      × (is_running (pos pid) ≡ false
          → write_pid_file true is_running other true (content (pid_content pid))
            ≡ wrote (pid_content other))
unfolding cleanup_pid_file write_pid_file
pid_file_lem is_running pid other m ne =
    let own = read_own pid m in
    (
      ap (is_own pid) own ∙ (==_iff pid pid).1 refl,
      ap (is_own other) own ∙ ground (arith, ==_iff pid other),
      λ r. ap (unless_running is_running other true) own ∙ rw r refl,
      λ r. ap (unless_running is_running other true) own ∙ rw r refl,
    )
