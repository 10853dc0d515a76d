-- ===== src/Events/Channels.antt =====
-- lib/httpapi/events.go: the channels of the subscribers.
use agentapi_plusplus.Events.Emitter.{
  notify_channels, notify, notify_all, subscribe, unsubscribe_inner, unsubscribe,
}
use agentapi_plusplus.Events.Types.{Event, Subscription, EventEmitter}
use agentapi_plusplus.Prelude.{
  ℕ, suc, ◌+◌, ◌≤◌, ◌<◌, ◌≡◌, refl, sym, ap, ◌∙◌, inl, inr, true, false, List, [], ◌∷◌, ◌++◌,
  Option, none, some, arith, tests, ltb, ltb→lt, leb, ◌==◌, ==_iff, if◌then◌else◌, ◌>>=◌, is_some,
  Bool-cases, Option-cases, length, length-append, append-nil, append_assoc,
}

-- What the channel of a key buffers, if the map has it.
unfoldable pub buffered_of : List Subscription → ℕ → Option (List Event)
buffered_of [] k = none
buffered_of (s ∷ chans) k = if s.key == k then some s.buffered else buffered_of chans k

-- The keys are below a bound and differ: each is below the one before it.
abbrev pub AreDescending : ℕ → List Subscription → Type 0
AreDescending n [] = Unit {0}
AreDescending n (s ∷ chans) = (s.key < n) × AreDescending s.key chans

weaken :
    (m n : ℕ) (chans : List Subscription) → m ≤ n → AreDescending m chans → AreDescending n chans
weaken m n [] h d = tt
weaken m n (s ∷ chans) h d = (omega (arith, d.0), d.1)

notify_channels-AreDescending :
    (size n : ℕ) (chans : List Subscription) (event : Event)
    → AreDescending n chans
    → AreDescending n (notify_channels size chans event)
unfolding notify_channels
notify_channels-AreDescending size n [] event d = tt
notify_channels-AreDescending size n (s ∷ chans) event d =
    let rest = notify_channels-AreDescending size s.key chans event d.1 in
    elim (Bool-cases (ltb (length s.buffered) size)) [
      | inl e ↦ rw e (d.0, rest)
      | inr e ↦ rw e (weaken s.key n (notify_channels size chans event) (omega (arith, d.0)) rest)
    ]

buffered_of-none :
    (n k : ℕ) (chans : List Subscription)
    → AreDescending n chans
    → n ≤ k
    → buffered_of chans k ≡ none
unfolding buffered_of
buffered_of-none n k [] d h = refl
buffered_of-none n k (s ∷ chans) d h =
    let other : (s.key == k) ≡ false = ground (arith, d.0) in
    rw other (buffered_of-none s.key k chans d.1 (omega (arith, d.0)))

-- What an event leaves of a channel.
abbrev pub pushed : ℕ → Event → List Event → Option (List Event)
pushed size event buffered =
    if ltb (length buffered) size then some (buffered ++ event ∷ []) else none

notify_channels-buffered_of :
    (size n k : ℕ) (chans : List Subscription) (event : Event)
    → AreDescending n chans
    → buffered_of (notify_channels size chans event) k
      ≡ (buffered_of chans k >>= λ b. pushed size event b)
unfolding notify_channels buffered_of
notify_channels-buffered_of size n k [] event d = refl
notify_channels-buffered_of size n k (s ∷ chans) event d =
    let rest = notify_channels-buffered_of size s.key k chans event d.1 in
    elim (Bool-cases (ltb (length s.buffered) size)) [
      | inl e ↦ elim (Bool-cases (s.key == k)) [
        | inl here ↦ rw (e, here, e) refl
        | inr other ↦ rw (e, other) rest
      ]
      | inr e ↦ elim (Bool-cases (s.key == k)) [
        | inl here ↦
            let same = (==_iff s.key k).0 here in
            rw (e, here, e)
              (buffered_of-none s.key k (notify_channels size chans event)
                (notify_channels-AreDescending size s.key chans event d.1) (omega (arith, same)))
        | inr other ↦ rw (e, other) rest
      ]
    ]

-- The keys of an emitter's channels are all older than its next key.
abbrev pub AreKeyed : EventEmitter → Type 0
AreKeyed e = AreDescending e.chan_idx e.chans

pub notify-AreKeyed : (e : EventEmitter) (event : Event) → AreKeyed e → AreKeyed (notify e event)
unfolding notify
notify-AreKeyed e event d =
    notify_channels-AreDescending e.subscription_buf_size e.chan_idx e.chans event d

pub notify_all-AreKeyed :
    (e : EventEmitter) (events : List Event) → AreKeyed e → AreKeyed (notify_all e events)
unfolding notify_all
notify_all-AreKeyed e [] d = d
notify_all-AreKeyed e (event ∷ events) d =
    notify_all-AreKeyed (notify e event) events (notify-AreKeyed e event d)

pub subscribe-AreKeyed : (e : EventEmitter) → AreKeyed e → AreKeyed (subscribe e).1
unfolding subscribe
subscribe-AreKeyed e d = (omega arith, d)

notify_all-gone :
    (k : ℕ) (e : EventEmitter) (events : List Event)
    → AreKeyed e
    → buffered_of e.chans k ≡ none
    → buffered_of (notify_all e events).chans k ≡ none
unfolding notify_all notify
notify_all-gone k e [] d h = h
notify_all-gone k e (event ∷ events) d h =
    notify_all-gone k (notify e event) events (notify-AreKeyed e event d) (
      notify_channels-buffered_of e.subscription_buf_size e.chan_idx k e.chans event d
      ∙ ap (λ o. o >>= (λ b. pushed e.subscription_buf_size event b)) h)

-- What a subscriber who reads nothing finds after any run of events: all of them in their order if they
-- fit in its channel, and else a closed channel.
pub notify_all-buffered_of :
    (k : ℕ) (e : EventEmitter) (events : List Event) (b : List Event)
    → AreKeyed e
    → buffered_of e.chans k ≡ some b
    → length b ≤ e.subscription_buf_size
    → buffered_of (notify_all e events).chans k ≡ (
        if leb (length b + length events) e.subscription_buf_size then some (b ++ events) else none)
unfolding notify_all notify
notify_all-buffered_of k e [] b d h fits =
    let within : leb (length b + 0) e.subscription_buf_size ≡ true = grind tests in
    rw (within, append-nil) h
notify_all-buffered_of k e (event ∷ events) b d h fits =
    let size = e.subscription_buf_size in
    let step =
      notify_channels-buffered_of size e.chan_idx k e.chans event d
      ∙ ap (λ o. o >>= (λ c. pushed size event c)) h in
    elim (Bool-cases (ltb (length b) size)) [
      | inl room ↦
          let more = length-append b (event ∷ []) in
          let rest =
            notify_all-buffered_of k (notify e event) events (b ++ event ∷ [])
              (notify-AreKeyed e event d) (step ∙ rw room refl)
              (omega (arith, more, ltb→lt (length b) size room)) in
          let count : length (b ++ event ∷ []) + length events ≡ length b + suc (length events) =
            omega (arith, more) in
          rest ∙ rw (count, append_assoc b (event ∷ []) events) refl
      | inr full ↦
          let over : leb (length b + suc (length events)) size ≡ false = grind tests in
          rw over (
            notify_all-gone k (notify e event) events (notify-AreKeyed e event d)
              (step ∙ rw full refl))
    ]

unsubscribe_inner-none_iff :
    (chans : List Subscription) (k : ℕ)
    → is_some (unsubscribe_inner chans k) ≡ is_some (buffered_of chans k)
unfolding unsubscribe_inner buffered_of
unsubscribe_inner-none_iff [] k = refl
unsubscribe_inner-none_iff (s ∷ chans) k = elim (Bool-cases (s.key == k)) [
  | inl here ↦ rw here refl
  | inr other ↦ elim (Option-cases (unsubscribe_inner chans k)) [
    | inl e ↦ rw (other, e) (ap is_some (sym e) ∙ unsubscribe_inner-none_iff chans k)
    | inr (left, e) ↦ rw (other, e) (ap is_some (sym e) ∙ unsubscribe_inner-none_iff chans k)
  ]
]

-- `Unsubscribe` panics exactly for a key that the map does not hold.
pub unsubscribe-is_some :
    (e : EventEmitter) (k : ℕ) → is_some (unsubscribe e k) ≡ is_some (buffered_of e.chans k)
unfolding unsubscribe
unsubscribe-is_some e k = elim (Option-cases (unsubscribe_inner e.chans k)) [
  | inl h ↦ rw h (ap is_some (sym h) ∙ unsubscribe_inner-none_iff e.chans k)
  | inr (left, h) ↦ rw h (ap is_some (sym h) ∙ unsubscribe_inner-none_iff e.chans k)
]

is_some-none : {A : Type 0} {o : Option A} → is_some o ≡ false → o ≡ none
is_some-none {o = none} h = refl
is_some-none {o = some a} h = cc

-- A new subscriber who reads nothing finds in its channel the events since, all and in their order, as
-- long as they fit. Once they do not, its channel is gone, and its `Unsubscribe`, which the handlers of
-- the server always call, panics.
pub subscribe_lem :
    (e : EventEmitter) (events : List Event)
    → AreKeyed e
    → ((length events ≤ e.subscription_buf_size)
        → buffered_of (notify_all (subscribe e).1 events).chans (subscribe e).0 ≡ some events)
      × ((e.subscription_buf_size < length events)
          → unsubscribe (notify_all (subscribe e).1 events) (subscribe e).0 ≡ none)
unfolding subscribe buffered_of
subscribe_lem e events d =
    let here : (e.chan_idx == e.chan_idx) ≡ true = (==_iff e.chan_idx e.chan_idx).1 refl in
    let there : buffered_of (subscribe e).1.chans e.chan_idx ≡ some [] = rw here refl in
    let after =
      notify_all-buffered_of e.chan_idx (subscribe e).1 events [] (subscribe-AreKeyed e d) there
        (omega arith) in
    (
      λ h.
          (let within : leb (0 + length events) e.subscription_buf_size ≡ true = grind tests in
            after ∙ rw within refl),
      λ h.
          (let over : leb (0 + length events) e.subscription_buf_size ≡ false = grind tests in
            let gone : buffered_of (notify_all (subscribe e).1 events).chans e.chan_idx ≡ none =
              after ∙ rw over refl in
            is_some-none (
              unsubscribe-is_some (notify_all (subscribe e).1 events) e.chan_idx
              ∙ ap is_some gone)),
    )
