-- ===== src/Http/Stream.antt =====
-- lib/httpapi/server.go: the handlers that stream the events of a subscription. Whether a send succeeds is
-- a parameter; what the `select` takes is an argument. The subscription itself and the deferred call that
-- ends it are operations of the emitter.
pub mod Client
use agentapi_plusplus.Events.Types.{
  Event, message_update, status_change, screen_update, agent_error, timeline_event,
}
use agentapi_plusplus.Prelude.{
  ℕ, suc, Bool, true, false, not, List, [], ◌∷◌, ◌++◌, Option, none, some, if◌then◌else◌,
}

-- What the `select` takes: an event of the channel, the channel's end, the end of the server, or the end of
-- the request.
pub data Input : Type 0 where
  received : Event → Input
  closed shutdown context_done : Input

-- Why the handler returns.
pub data End : Type 0 where
  send_failed channel_closed server_stopped request_done : End

-- What was sent so far, and why the handler returned, if it did.
pub record Streamed : Type 0 where
  pub sent : List Event
  pub ended : Option End

unfoldable pub is_screen : Event → Bool
is_screen (screen_update s) = true
is_screen _ = false

abbrev pub then_sent : Event → Streamed → Streamed
then_sent ev rest = record rest { sent = ev ∷ rest.sent }

module _ (skips : Event → Bool) (succeeds : ℕ → Bool) where
  -- One event: it is skipped, or sent as the send of a number; `next` is what follows.
  abbrev pub send_event : ℕ → Event → (ℕ → Streamed) → Streamed
  send_event n ev next =
      if skips ev
      then next n
      else if succeeds n
      then then_sent ev (next (suc n))
      else record { sent = []; ended = some send_failed }

  -- The endless loop, over what its `select` takes.
  unfoldable pub stream_loop : List Input → ℕ → Streamed
  stream_loop [] n = record { sent = []; ended = none }
  stream_loop (received ev ∷ inputs) n = send_event n ev (λ k. stream_loop inputs k)
  stream_loop (closed ∷ inputs) n = record { sent = []; ended = some channel_closed }
  stream_loop (shutdown ∷ inputs) n = record { sent = []; ended = some server_stopped }
  stream_loop (context_done ∷ inputs) n = record { sent = []; ended = some request_done }

  -- The loop over the events of the current state, and then the endless loop.
  unfoldable pub stream : List Event → List Input → ℕ → Streamed
  unfolding stream_loop
  stream [] inputs n = stream_loop inputs n
  stream (ev ∷ state) inputs n = send_event n ev (λ k. stream state inputs k)

-- `subscribeEvents` and `subscribeScreen`, for the events of the current state that `Subscribe` gave.
unfoldable pub subscribe_events : (ℕ → Bool) → List Event → List Input → Streamed
unfolding stream is_screen
subscribe_events succeeds state inputs = stream is_screen succeeds state inputs 0

unfoldable pub subscribe_screen : (ℕ → Bool) → List Event → List Input → Streamed
unfolding stream is_screen
subscribe_screen succeeds state inputs = stream (λ ev. not (is_screen ev)) succeeds state inputs 0
