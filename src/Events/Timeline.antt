-- ===== src/Events/Timeline.antt =====
-- lib/httpapi/events.go: the stored timeline.
use agentapi_plusplus.Events.Emitter.{
  notify, keep_last, to_timeline_event_body, emit_timeline_event, clear_timeline, timeline_since,
  timeline,
}
use agentapi_plusplus.Events.Types.{TimelineEvent, TimelineEventBody, EventEmitter, ℤ, pos, negsuc}
use agentapi_plusplus.Prelude.{
  ℕ, zero, suc, ◌+◌, ◌-◌, ◌≤◌, ◌<◌, ◌≡◌, refl, sym, ap, ◌∙◌, subst, inl, inr, List, [], ◌∷◌, ◌++◌,
  arith, tests, ltb, ltb→lt, leb, leb→le, Bool-cases, length, length-append, length-drop, drop,
  drop-nil,
}

-- The ids count up from `n`.
abbrev pub AreCounted : ℕ → List TimelineEventBody → Type 0
AreCounted n [] = Unit {0}
AreCounted n (ev ∷ events) = (ev.id ≡ n) × AreCounted (suc n) events

-- The stored events are the last ones, without a gap, and at most 10000.
pub record IsTimeline (e : EventEmitter) : Type 0 where
  pub first : ℕ
  pub ids : AreCounted first e.timeline
  pub next : e.timeline_next_id ≡ first + length e.timeline
  pub bounded : length e.timeline ≤ 10000

AreCounted-concat :
    (n : ℕ) (events : List TimelineEventBody) (ev : TimelineEventBody)
    → AreCounted n events
    → ev.id ≡ n + length events
    → AreCounted n (events ++ ev ∷ [])
AreCounted-concat n [] ev a e = (omega arith, tt)
AreCounted-concat n (x ∷ events) ev a e =
    (a.0, AreCounted-concat (suc n) events ev a.1 (omega arith))

AreCounted-drop :
    (n k : ℕ) (events : List TimelineEventBody)
    → AreCounted n events
    → k ≤ length events
    → AreCounted (n + k) (drop k events)
AreCounted-drop n zero events a h =
    subst (λ m. AreCounted m events) {x = n} {y = n + 0} (omega arith) a
AreCounted-drop n (suc k) [] a h = tt
AreCounted-drop n (suc k) (x ∷ events) a h =
    subst (λ m. AreCounted m (drop k events)) {x = suc n + k} {y = n + suc k} (omega arith)
      (AreCounted-drop (suc n) k events a.1 (omega arith))

pub length-keep_last {ℓ} :
    {T : Type ℓ} (limit : ℕ) (xs : List T) → length (keep_last limit xs) ≤ limit
length-keep_last limit xs = elim (Bool-cases (ltb limit (length xs))) [
  | inl over ↦ rw over (omega (arith, length-drop (length xs - limit) xs))
  | inr within ↦ rw within (grind tests)
]

-- Emitting keeps the timeline: the new event is the last, with the next id.
pub emit_timeline_event-IsTimeline :
    (e : EventEmitter) (ev : TimelineEvent) → IsTimeline e → IsTimeline (emit_timeline_event e ev)
unfolding emit_timeline_event notify to_timeline_event_body
emit_timeline_event-IsTimeline e ev v =
    let body = to_timeline_event_body e.timeline_next_id ev in
    let all = e.timeline ++ body ∷ [] in
    let counted = AreCounted-concat v.first e.timeline body v.ids v.next in
    let more = length-append e.timeline (body ∷ []) in
    elim (Bool-cases (ltb 10000 (length all))) [
      | inl over ↦ record {
        first = v.first + (length all - 10000);
        ids = rw over (AreCounted-drop v.first (length all - 10000) all counted (omega arith));
        next = rw over (
            omega (
              arith,
              more,
              v.next,
              length-drop (length all - 10000) all,
              ltb→lt 10000 (length all) over,
            ));
        bounded = length-keep_last 10000 all;
      }
      | inr within ↦ record {
        first = v.first;
        ids = rw within counted;
        next = rw within (omega (arith, more, v.next));
        bounded = length-keep_last 10000 all;
      }
    ]

pub clear_timeline-IsTimeline : (e : EventEmitter) → IsTimeline e → IsTimeline (clear_timeline e)
unfolding clear_timeline
clear_timeline-IsTimeline e v = record {
  first = e.timeline_next_id;
  ids = tt;
  next = omega arith;
  bounded = omega arith;
}

-- The number of stored events that a client with the events up to `since` has: none for a negative one.
abbrev pub seen : ℕ → ℤ → ℕ
seen first (pos since) = since + 1 - first
seen first (negsuc since) = 0

timeline_since-all :
    (n : ℕ) (events : List TimelineEventBody) (since : ℤ)
    → AreCounted n events
    → timeline_since events since [] ≡ drop (seen n since) events
unfolding timeline_since
timeline_since-all n [] since a = sym (drop-nil (seen n since))
timeline_since-all n (ev ∷ events) (pos since) a =
    let rest = timeline_since-all (suc n) events (pos since) a.1 in
    elim (Bool-cases (leb ev.id since)) [
      | inl old ↦
          let at_most = leb→le ev.id since old in
          let count : since + 1 - n ≡ suc (since + 1 - suc n) = omega (arith, a.0) in
          rw (old, count) rest
      | inr new ↦
          let above : since < n = grind (tests, a.0) in
          let count : since + 1 - n ≡ 0 = omega arith in
          let count' : since + 1 - suc n ≡ 0 = omega arith in
          rw (new, count) (ap (λ t. ev ∷ t) (rest ∙ rw count' refl))
    ]
timeline_since-all n (ev ∷ events) (negsuc since) a =
    ap (λ t. ev ∷ t) (timeline_since-all (suc n) events (negsuc since) a.1)

-- A client that asks for the events after an id gets all stored ones that it has not seen, in their
-- order.
pub timeline_lem :
    (e : EventEmitter) (v : IsTimeline e) (since : ℤ)
    → timeline e since [] ≡ drop (seen v.first since) e.timeline
unfolding timeline
timeline_lem e v since = timeline_since-all v.first e.timeline since v.ids
