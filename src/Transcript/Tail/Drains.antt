-- ===== src/Transcript/Tail/Drains.antt =====
-- lib/transcript/tail.go: `Drain` called again and again on a file that grows.
use agentapi_plusplus.Transcript.Tail.{
  max_line_size, Tailer, new_tailer, keep_line, File, bytes, unreadable, read_from, check_size,
  drain,
}
use agentapi_plusplus.Transcript.Tail.Reference.{
  IsBounded, feed, feed-IsBounded, feed_all, take_chunks-eq-feed_all,
}
use agentapi_plusplus.Prelude.{
  take-length-take, take_add, subst, length-take, ℕ, ◌+◌, ◌≤◌, ◌≡◌, refl, sym, ap, ◌∙◌, List, [],
  ◌∷◌, ◌++◌, Option, none, some, ltb, ltb-false, if◌then◌else◌, arith, length, take, drop,
  take-length, length-drop, Text, append_assoc,
}

-- What happens between two calls and in the second: the file grows and is read, perhaps not to its end,
-- or it cannot be read.
pub data Poll : Type 0 where
  reads : Text → Option ℕ → Poll
  refused : Poll

abbrev pub grow : Text → Poll → Text
grow s (reads more fails) = s ++ more
grow s refused = s

abbrev pub answer : Text → Poll → File
answer s (reads more fails) = bytes (s ++ more) fails
answer s refused = unreadable

-- The content of the file after the polls, the tailer and all the lines that it gave.
unfoldable pub poll_all : Text → Tailer → List Poll → Text × Tailer × List Text
poll_all s t [] = (s, t, [])
poll_all s t (p ∷ ps) =
    let d = drain t (answer s p) in
    let rest = poll_all (grow s p) d.tail ps in (rest.0, rest.1, d.lines ++ rest.2)

-- The lines of a text that a newline ends, without those that are too long or empty.
unfoldable pub whole_lines : List Text → List Text
unfolding keep_line
whole_lines [] = []
whole_lines (p ∷ []) = []
whole_lines (p ∷ q ∷ ps) =
    (if ltb max_line_size (length p) then [] else keep_line p) ++ whole_lines (q ∷ ps)

feed_all-append :
    (t : Tailer) (a b : Text)
    → feed_all t (a ++ b)
      ≡ (let first = feed_all t a in let rest = feed_all first.0 b in (rest.0, first.1 ++ rest.1))
unfolding feed_all
feed_all-append t [] b = refl
feed_all-append t (c ∷ a) b = rw (feed_all-append (feed t c).0 a b, append_assoc (feed t c).1) refl

feed_all-IsBounded : (t : Tailer) (s : Text) → IsBounded t → IsBounded (feed_all t s).0
unfolding feed_all
feed_all-IsBounded t [] h = h
feed_all-IsBounded t (c ∷ s) h = feed_all-IsBounded (feed t c).0 s (feed-IsBounded t c h)

feed_offset : (t : Tailer) (b : ℕ) → (feed t b).0.offset ≡ t.offset + 1
unfolding feed
feed_offset t b = ground arith

feed_all_offset : (t : Tailer) (s : Text) → (feed_all t s).0.offset ≡ t.offset + length s
unfolding feed_all
feed_all_offset t [] = omega arith
feed_all_offset t (c ∷ s) = omega (arith, feed_all_offset (feed t c).0 s, feed_offset t c)

pub new_tailer-IsBounded : IsBounded new_tailer
unfolding new_tailer
new_tailer-IsBounded = record { short = omega arith; unused = λ e. refl }

-- A tailer that has taken in the start of a file, as far as it reached.
pub record Tracks (s : Text) (t : Tailer) (lines : List Text) : Type 0 where
  pub reached : t.offset ≤ length s
  pub fed : feed_all new_tailer (take t.offset s) ≡ (t, lines)

read_from-take :
    (s : Text) (fails : Option ℕ) (o : ℕ) → (k : ℕ) × (read_from s fails o ≡ take k (drop o s))
unfolding read_from
read_from-take s none o =
    (length (drop o s), sym (take-length (length (drop o s)) (drop o s) (omega arith)))
read_from-take s (some n) o = (n, refl)

-- The bytes that a read adds to those that were taken in.
take-read_from :
    (s : Text) (fails : Option ℕ) (o : ℕ)
    → take (o + length (read_from s fails o)) s ≡ take o s ++ read_from s fails o
take-read_from s fails o =
    let (k, e) = read_from-take s fails o in
    rw e (
      take_add o (length (take k (drop o s))) s
      ∙ ap (◌++◌ (take o s)) (take-length-take k (drop o s)))

length-read_from :
    (s : Text) (fails : Option ℕ) (o : ℕ)
    → o ≤ length s
    → o + length (read_from s fails o) ≤ length s
length-read_from s fails o h =
    let (k, e) = read_from-take s fails o in
    rw e (omega (arith, length-take k (drop o s), length-drop o s))

pub drain_reads :
    (t : Tailer) (s : Text) (fails : Option ℕ)
    → IsBounded t
    → t.offset ≤ length s
    → let d = drain t (bytes s fails) in (d.tail, d.lines) ≡ feed_all t (read_from s fails t.offset)
unfolding drain check_size
drain_reads t s fails h k =
    rw (ltb-false (length s) t.offset k) (take_chunks-eq-feed_all t (read_from s fails t.offset) h)

pub Tracks-IsBounded : (s : Text) (t : Tailer) (lines : List Text) → Tracks s t lines → IsBounded t
Tracks-IsBounded s t lines h =
    subst IsBounded (ap (λ r. r.0) h.fed)
      (feed_all-IsBounded new_tailer (take t.offset s) new_tailer-IsBounded)

pub Tracks-feed_all :
    (s : Text) (t : Tailer) (lines : List Text) (fails : Option ℕ)
    → Tracks s t lines
    → let r = feed_all t (read_from s fails t.offset) in Tracks s r.0 (lines ++ r.1)
Tracks-feed_all s t lines fails h =
    let r = read_from s fails t.offset in
    let o = feed_all_offset t r in
    record {
      reached = rw o (length-read_from s fails t.offset h.reached);
      fed =
          rw
            (
              o,
              take-read_from s fails t.offset,
              feed_all-append new_tailer (take t.offset s) r,
              h.fed,
            )
            refl;
    }
