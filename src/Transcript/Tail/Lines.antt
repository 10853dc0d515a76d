-- ===== src/Transcript/Tail/Lines.antt =====
-- lib/transcript/tail.go: the lines that repeated calls of `Drain` give against the lines of the file.
use agentapi_plusplus.Transcript.Tail.{
  max_line_size, Tailer, new_tailer, keep_line, take_chunk, take_chunks, drain,
}
use agentapi_plusplus.Transcript.Tail.Drains.{
  Poll, reads, refused, grow, answer, poll_all, whole_lines, Tracks, Tracks-IsBounded,
  Tracks-feed_all, drain_reads, new_tailer-IsBounded,
}
use agentapi_plusplus.Transcript.Tail.Reference.{feed_all, take_chunks-eq-feed_all}
use agentapi_plusplus.Prelude.{
  take-append, length-append, subst, ℕ, ◌+◌, ◌≤◌, ◌≡◌, refl, sym, ap, ◌∙◌, inl, inr, true, false,
  List, [], ◌∷◌, ◌++◌, ltb, if◌then◌else◌, Bool-cases, arith, length, take, Text, append-nil,
  append_assoc,
}
use agentapi_plusplus.Strings.{split_lines}

grow-Tracks :
    (s more : Text) (t : Tailer) (lines : List Text) → Tracks s t lines → Tracks (s ++ more) t lines
grow-Tracks s more t lines h = record {
  reached = omega (arith, length-append s more, h.reached);
  fed = rw (take-append t.offset s more h.reached) h.fed;
}

drain-Tracks :
    (s : Text) (t : Tailer) (lines : List Text) (p : Poll)
    → Tracks s t lines
    → let d = drain t (answer s p) in Tracks (grow s p) d.tail (lines ++ d.lines)
unfolding drain
drain-Tracks s t lines (reads more fails) h =
    let g = grow-Tracks s more t lines h in
    let e = drain_reads t (s ++ more) fails (Tracks-IsBounded (s ++ more) t lines g) g.reached in
    subst (λ (r : Tailer × List Text). Tracks (s ++ more) r.0 (lines ++ r.1)) (sym e)
      (Tracks-feed_all (s ++ more) t lines fails g)
drain-Tracks s t lines refused h = rw (append-nil lines) h

poll_all-Tracks :
    (s : Text) (t : Tailer) (lines : List Text) (ps : List Poll)
    → Tracks s t lines
    → let r = poll_all s t ps in Tracks r.0 r.1 (lines ++ r.2)
unfolding poll_all
poll_all-Tracks s t lines [] h = rw (append-nil lines) h
poll_all-Tracks s t lines (p ∷ ps) h =
    let d = drain t (answer s p) in
    rw (← append_assoc lines d.lines)
      (poll_all-Tracks (grow s p) d.tail (lines ++ d.lines) ps (drain-Tracks s t lines p h))

new_tailer-Tracks : (s : Text) → Tracks s new_tailer []
unfolding new_tailer feed_all
new_tailer-Tracks s = record { reached = omega arith; fed = refl }

take_chunk_last : (t : Tailer) (p : Text) → (take_chunk t p false).1 ≡ []
unfolding take_chunk
take_chunk_last t p = ground arith

take_chunk_alone :
    (o : ℕ) (p : Text)
    → take_chunk (record { offset = o; carry = []; skipping = false }) p true ≡ (
      record { offset = o + length p + 1; carry = []; skipping = false },
      if ltb max_line_size (length p) then [] else keep_line p,
    )
unfolding take_chunk
take_chunk_alone o p =
    let same : 0 + length p ≡ length p = omega arith in
    rw same
      (elim (Bool-cases (ltb max_line_size (length p))) [ inl e ↦ rw e refl | inr e ↦ rw e refl ])

take_chunks-whole_lines :
    (o : ℕ) (ps : List Text)
    → (take_chunks (record { offset = o; carry = []; skipping = false }) ps).1 ≡ whole_lines ps
unfolding take_chunks whole_lines
take_chunks-whole_lines o [] = refl
take_chunks-whole_lines o (p ∷ []) =
    take_chunk_last (record { offset = o; carry = []; skipping = false }) p
take_chunks-whole_lines o (p ∷ q ∷ ps) =
    rw (take_chunk_alone o p, take_chunks-whole_lines (o + length p + 1) (q ∷ ps)) refl

feed_all-whole_lines : (s : Text) → (feed_all new_tailer s).1 ≡ whole_lines (split_lines s)
unfolding new_tailer
feed_all-whole_lines s =
    ap (λ r. r.1) (sym (take_chunks-eq-feed_all new_tailer s new_tailer-IsBounded))
    ∙ take_chunks-whole_lines 0 (split_lines s)

-- Whatever a file holds at first and grows by between the calls of `Drain` on it, and wherever a call
-- stops, even on an error or before it reads anything, the calls together give the lines that a newline
-- ends in the part of the file that was read, in order, each once and whole, and never a part of a line.
-- Lines longer than the limit are left out; carriage returns at the end of a line are cut, and lines left
-- empty are left out. The tailer's offset is the size of the part that was read.
pub poll_all-whole_lines :
    (s : Text) (ps : List Poll)
    → let r = poll_all s new_tailer ps in
      (r.1.offset ≤ length r.0) × (r.2 ≡ whole_lines (split_lines (take r.1.offset r.0)))
poll_all-whole_lines s ps =
    let h = poll_all-Tracks s new_tailer [] ps (new_tailer-Tracks s) in
    (h.reached, ap (λ r. r.1) (sym h.fed) ∙ feed_all-whole_lines _)
