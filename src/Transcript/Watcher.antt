-- ===== src/Transcript/Watcher.antt =====
-- lib/transcript/watcher.go: the watch loop over a tailer, a discoverer and a parser. The parser, with the
-- clock that it and the watcher read, is a parameter; so is what the file system answers.
pub mod Session
use agentapi_plusplus.Events.Types.{TimelineEvent}
use agentapi_plusplus.Prelude.{
  ℕ, suc, ◌%◌, Bool, true, false, ◌||◌, List, [], ◌∷◌, ◌++◌, Option, none, some, ◌==◌,
  if◌then◌else◌, is_nil, Text, text_eq, codes,
}
use agentapi_plusplus.Transcript.Tail.{Tailer, new_tailer, File, Drained, drain}

-- `Parser` and `time.Now`: both may change a state, so that every reading of the clock is its own.
pub record Parser : Type 1 where
  pub State : Type 0
  pub parse_line : State → Text → State × List TimelineEvent
  pub now : State → State × ℕ

unfoldable pub discover_every : ℕ
discover_every = 7

-- The path that is tailed stands beside its tailer; `ticks` is the variable of `loop`.
pub record Watcher (P : Parser) : Type 0 where
  pub parser : P.State
  pub tail : Option (Text × Tailer)
  pub ticks : ℕ

-- What `Newest` gives at a time, `none` for an error, and what a path leads to.
pub record Reading : Type 0 where
  pub newest : Option Text
  pub file : Text → File

module _ (P : Parser) where
  unfoldable pub new_watcher : P.State → Watcher P
  new_watcher s = record { parser = s; tail = none; ticks = 0 }

  -- An event without a time gets the clock's. The handler gets the events in this order.
  unfoldable pub stamp : P.State → List TimelineEvent → P.State × List TimelineEvent
  stamp s [] = (s, [])
  stamp s (ev ∷ events) =
      let read = P.now s in
      let late = stamp read.0 events in
      let rest = stamp s events in
      if ev.time == 0 then (late.0, record ev { time = read.1 } ∷ late.1) else (rest.0, ev ∷ rest.1)

  -- The loop of `drain` over the lines.
  unfoldable pub handle_lines : P.State → List Text → P.State × List TimelineEvent
  unfolding stamp
  handle_lines s [] = (s, [])
  handle_lines s (line ∷ lines) =
      let parsed = P.parse_line s line in
      let sent = stamp parsed.0 parsed.1 in
      let rest = handle_lines sent.0 lines in (rest.0, sent.1 ++ rest.1)

  -- `w.drain()`, where there is a tailer, for what the file is.
  unfoldable pub drain_tail : Watcher P → Text → Tailer → File → Watcher P × List TimelineEvent
  unfolding handle_lines drain
  drain_tail w path t file =
      let d = drain t file in
      let sent = handle_lines w.parser d.lines in
      (record w { parser = sent.0; tail = some (path, d.tail) }, sent.1)

  unfoldable pub session_switched : ℕ → TimelineEvent
  session_switched time = record {
    kind = codes "system";
    role = codes "system";
    time = time;
    session_id = [];
    content = codes "session switched";
    tool_name = [];
    tool_input = [];
    tool_use_id = [];
    source_id = [];
  }

  -- `discover` where a file was found that is not tailed yet.
  unfoldable pub switch_to :
      Watcher P → (Text → File) → Text → Option (Text × Tailer) → Watcher P × List TimelineEvent
  unfolding drain_tail session_switched new_tailer
  switch_to w file path none = (record w { tail = some (path, new_tailer) }, [])
  switch_to w file path (some (old, t)) =
      let flushed = drain_tail w old t (file old) in
      let read = P.now flushed.0.parser in
      (
        record w { parser = read.0; tail = some (path, new_tailer) },
        flushed.1 ++ session_switched read.1 ∷ [],
      )

  abbrev pub is_tailed : Option (Text × Tailer) → Text → Bool
  is_tailed none path = false
  is_tailed (some (old, t)) path = text_eq path old

  unfoldable pub discover : Watcher P → Reading → Watcher P × List TimelineEvent
  unfolding switch_to
  discover w reading = elim reading.newest [
    | none ↦ (w, [])
    | some path ↦
        if is_nil path || is_tailed w.tail path
        then (w, [])
        else switch_to w reading.file path w.tail
  ]

  -- The discovery of every seventh tick.
  unfoldable pub discover_at : Watcher P → Reading → Watcher P × List TimelineEvent
  unfolding discover_every discover
  discover_at w reading = if (w.ticks % discover_every) == 0 then discover w reading else (w, [])

  unfoldable pub drain_then_discover :
      Watcher P → Reading → Option (Text × Tailer) → Watcher P × List TimelineEvent
  unfolding drain_tail discover_at
  drain_then_discover w reading none = discover_at w reading
  drain_then_discover w reading (some (path, t)) =
      let drained = drain_tail w path t (reading.file path) in
      let found = discover_at drained.0 reading in (found.0, drained.1 ++ found.1)

  -- One tick of `loop`.
  unfoldable pub watch_tick : Watcher P → Reading → Watcher P × List TimelineEvent
  unfolding drain_then_discover
  watch_tick w reading =
      let counted = record w { ticks = suc w.ticks } in
      drain_then_discover counted reading counted.tail

  unfoldable pub watch : Watcher P → List Reading → Watcher P × List TimelineEvent
  unfolding watch_tick
  watch w [] = (w, [])
  watch w (reading ∷ readings) =
      let first = watch_tick w reading in
      let rest = watch first.0 readings in (rest.0, first.1 ++ rest.1)

  -- `loop`: a discovery, then the ticks until the context is done.
  unfoldable pub loop : Watcher P → Reading → List Reading → Watcher P × List TimelineEvent
  unfolding discover watch
  loop w first readings =
      let found = discover w first in
      let rest = watch found.0 readings in (rest.0, found.1 ++ rest.1)
