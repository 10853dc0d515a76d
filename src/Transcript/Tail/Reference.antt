-- ===== src/Transcript/Tail/Reference.antt =====
-- lib/transcript/tail.go: the loop of `Drain` against one that takes a byte at a time.
use agentapi_plusplus.Transcript.Tail.{max_line_size, Tailer, keep_line, take_chunk, take_chunks}
use agentapi_plusplus.Prelude.{
  ℕ, suc, ◌+◌, ◌≤◌, ◌≡◌, ◌≢◌, refl, inl, inr, Bool, true, false, not, List, [], ◌∷◌, ◌++◌, ltb,
  ltb-false, ◌==◌, if◌then◌else◌, Bool-cases, arith, length, length-append, Text, append-nil,
  append_assoc, lt→ltb, ltb→lt,
}
use agentapi_plusplus.Strings.{push_head, split_lines}
use agentapi_plusplus.Strings.Lines.{split_lines-ne-nil}

-- A byte at a time: a newline ends the line, and a line that grows too long is given up at once.
unfoldable pub feed : Tailer → ℕ → Tailer × List Text
unfolding keep_line
feed t b =
    let n = t.offset + 1 in
    if b == b'\n'
    then (
      record { offset = n; carry = []; skipping = false },
      if t.skipping then [] else keep_line t.carry,
    )
    else if t.skipping
    then (record t { offset = n }, [])
    else if ltb max_line_size (length t.carry + 1)
    then (record t { offset = n; carry = []; skipping = true }, [])
    else (record t { offset = n; carry = t.carry ++ b ∷ [] }, [])

unfoldable pub feed_all : Tailer → Text → Tailer × List Text
feed_all t [] = (t, [])
feed_all t (b ∷ s) =
    let first = feed t b in let rest = feed_all first.0 s in (rest.0, first.1 ++ rest.1)

-- What every operation keeps: the carry is a line that may still be kept.
pub record IsBounded (t : Tailer) : Type 0 where
  pub short : length t.carry ≤ max_line_size
  pub unused : t.skipping ≡ true → t.carry ≡ []

abbrev tailer : ℕ → Text → Bool → Tailer
tailer o c b = record { offset = o; carry = c; skipping = b }

abbrev ending : Bool → ℕ
ending complete = if complete then 1 else 0

pub feed-IsBounded : (t : Tailer) (b : ℕ) → IsBounded t → IsBounded (feed t b).0
unfolding feed
feed-IsBounded t b h = elim (Bool-cases (b == b'\n')) [
  | inl e ↦ rw e (record { short = omega arith; unused = λ p. refl })
  | inr e ↦ elim (Bool-cases t.skipping) [
    | inl k ↦ rw (e, k) (record { short = h.short; unused = λ p. h.unused k })
    | inr k ↦ elim (Bool-cases (ltb max_line_size (length t.carry + 1))) [
      | inl l ↦ rw (e, k, l) (record { short = omega arith; unused = λ p. refl })
      | inr l ↦
          rw (e, k, l)
            (record { short = ground (arith, length-append t.carry (b ∷ [])); unused = λ p. cc })
    ]
  ]
]

take_chunk_skips :
    (o : ℕ) (c chunk : Text) (complete : Bool)
    → take_chunk (tailer o c true) chunk complete
      ≡ (tailer (o + length chunk + ending complete) c (not complete), [])
unfolding take_chunk
take_chunk_skips o c chunk complete = refl

take_chunk_drops :
    (o : ℕ) (c chunk : Text) (complete : Bool)
    → ltb max_line_size (length c + length chunk) ≡ true
    → take_chunk (tailer o c false) chunk complete
      ≡ (tailer (o + length chunk + ending complete) [] (not complete), [])
unfolding take_chunk
take_chunk_drops o c chunk complete h = rw h refl

take_chunk_line :
    (o : ℕ) (c chunk : Text)
    → ltb max_line_size (length c + length chunk) ≡ false
    → take_chunk (tailer o c false) chunk true
      ≡ (tailer (o + length chunk + 1) [] false, keep_line (c ++ chunk))
unfolding take_chunk
take_chunk_line o c chunk h = rw h refl

take_chunk_carries :
    (o : ℕ) (c chunk : Text)
    → ltb max_line_size (length c + length chunk) ≡ false
    → take_chunk (tailer o c false) chunk false
      ≡ (tailer (o + length chunk + 0) (c ++ chunk) false, [])
unfolding take_chunk
take_chunk_carries o c chunk h = rw h refl

feed_line :
    (o : ℕ) (c : Text) (b : ℕ) (skip : Bool)
    → (b == b'\n') ≡ true
    → feed (tailer o c skip) b ≡ (tailer (o + 1) [] false, if skip then [] else keep_line c)
unfolding feed
feed_line o c b skip h = rw h refl

feed_skips :
    (o : ℕ) (c : Text) (b : ℕ)
    → (b == b'\n') ≡ false
    → feed (tailer o c true) b ≡ (tailer (o + 1) c true, [])
unfolding feed
feed_skips o c b h = rw h refl

feed_drops :
    (o : ℕ) (c : Text) (b : ℕ)
    → (b == b'\n') ≡ false
    → ltb max_line_size (length c + 1) ≡ true
    → feed (tailer o c false) b ≡ (tailer (o + 1) [] true, [])
unfolding feed
feed_drops o c b h k = rw (h, k) refl

feed_carries :
    (o : ℕ) (c : Text) (b : ℕ)
    → (b == b'\n') ≡ false
    → ltb max_line_size (length c + 1) ≡ false
    → feed (tailer o c false) b ≡ (tailer (o + 1) (c ++ b ∷ []) false, [])
unfolding feed
feed_carries o c b h k = rw (h, k) refl

regroup : (o n k : ℕ) → o + suc n + k ≡ o + 1 + n + k
regroup o n k = omega arith

length-concat :
    (c : Text) (b : ℕ) (chunk : Text)
    → length (c ++ b ∷ []) + length chunk ≡ length c + suc (length chunk)
length-concat c b chunk = omega (arith, length-append c (b ∷ []))

append-concat : (c : Text) (b : ℕ) (chunk : Text) → (c ++ b ∷ []) ++ chunk ≡ c ++ (b ∷ chunk)
append-concat c b chunk = append_assoc c (b ∷ []) chunk

-- A byte that is no newline can be taken from a chunk first.
take_chunk-feed :
    (o : ℕ) (c : Text) (skip : Bool) (b : ℕ) (chunk : Text) (complete : Bool)
    → (b == b'\n') ≡ false
    → take_chunk (tailer o c skip) (b ∷ chunk) complete
      ≡ take_chunk (feed (tailer o c skip) b).0 chunk complete
take_chunk-feed o c true b chunk complete h =
    rw
      (
        feed_skips o c b h,
        take_chunk_skips o c (b ∷ chunk) complete,
        take_chunk_skips (o + 1) c chunk complete,
        regroup o (length chunk) (ending complete),
      )
      refl
take_chunk-feed o c false b chunk complete h =
    elim (Bool-cases (ltb max_line_size (length c + 1))) [
      | inl k ↦
          rw
            (
              feed_drops o c b h k,
              take_chunk_skips (o + 1) [] chunk complete,
              take_chunk_drops o c (b ∷ chunk) complete (lt→ltb _ _ (omega (arith, ltb→lt _ _ k))),
              regroup o (length chunk) (ending complete),
            )
            refl
      | inr k ↦
          rw (feed_carries o c b h k)
            (elim (Bool-cases (ltb max_line_size (length c + suc (length chunk)))) [
              | inl l ↦
                  rw
                    (
                      take_chunk_drops o c (b ∷ chunk) complete l,
                      take_chunk_drops (o + 1) (c ++ b ∷ []) chunk complete
                          (rw (length-concat c b chunk) l),
                      regroup o (length chunk) (ending complete),
                    )
                    refl
              | inr l ↦ take_chunk_kept o c b chunk complete l
            ])
    ]
  where
    take_chunk_kept :
        (o : ℕ) (c : Text) (b : ℕ) (chunk : Text) (complete : Bool)
        → ltb max_line_size (length c + suc (length chunk)) ≡ false
        → take_chunk (tailer o c false) (b ∷ chunk) complete
          ≡ take_chunk (tailer (o + 1) (c ++ b ∷ []) false) chunk complete
    take_chunk_kept o c b chunk true l =
        rw
          (
            take_chunk_line o c (b ∷ chunk) l,
            take_chunk_line (o + 1) (c ++ b ∷ []) chunk (rw (length-concat c b chunk) l),
            append-concat c b chunk,
            regroup o (length chunk) 1,
          )
          refl
    take_chunk_kept o c b chunk false l =
        rw
          (
            take_chunk_carries o c (b ∷ chunk) l,
            take_chunk_carries (o + 1) (c ++ b ∷ []) chunk (rw (length-concat c b chunk) l),
            append-concat c b chunk,
            regroup o (length chunk) 0,
          )
          refl

take_chunks-feed :
    (t : Tailer) (b : ℕ) (p : Text) (ps : List Text)
    → (b == b'\n') ≡ false
    → take_chunks t ((b ∷ p) ∷ ps) ≡ take_chunks (feed t b).0 (p ∷ ps)
unfolding take_chunks
take_chunks-feed t b p [] h = take_chunk-feed t.offset t.carry t.skipping b p false h
take_chunks-feed t b p (q ∷ ps) h = rw (take_chunk-feed t.offset t.carry t.skipping b p true h) refl

feed_quiet : (t : Tailer) (b : ℕ) → (b == b'\n') ≡ false → (feed t b).1 ≡ []
unfolding feed
feed_quiet t b h = ground (arith, h)

one_more : (o : ℕ) → o + 0 + 1 ≡ o + 1
one_more o = omega arith

zero_more : (o : ℕ) → o + 0 + 0 ≡ o
zero_more o = omega arith

is_short : (c : Text) → length c ≤ max_line_size → ltb max_line_size (length c + 0) ≡ false
is_short c h = ltb-false _ _ (omega (arith, h))

take_chunk_none :
    (o : ℕ) (c : Text) (skip : Bool)
    → IsBounded (tailer o c skip)
    → take_chunk (tailer o c skip) [] false ≡ (tailer o c skip, [])
take_chunk_none o c true h = rw (take_chunk_skips o c [] false, zero_more o) refl
take_chunk_none o c false h =
    rw (take_chunk_carries o c [] (is_short c h.short), zero_more o, append-nil c) refl

take_chunk_end :
    (o : ℕ) (c : Text) (skip : Bool) (b : ℕ)
    → IsBounded (tailer o c skip)
    → (b == b'\n') ≡ true
    → take_chunk (tailer o c skip) [] true ≡ feed (tailer o c skip) b
take_chunk_end o c true b h e =
    rw (take_chunk_skips o c [] true, feed_line o c b true e, h.unused refl, one_more o) refl
take_chunk_end o c false b h e =
    rw
      (
        take_chunk_line o c [] (is_short c h.short),
        feed_line o c b false e,
        append-nil c,
        one_more o,
      )
      refl

take_chunks_nil_cons :
    (t : Tailer) (b : ℕ) (ps : List Text)
    → IsBounded t
    → ps ≢ []
    → (b == b'\n') ≡ true
    → take_chunks t ([] ∷ ps)
      ≡ (let first = feed t b in let rest = take_chunks first.0 ps in (rest.0, first.1 ++ rest.1))
unfolding take_chunks
take_chunks_nil_cons t b [] h n e = absurd (n refl)
take_chunks_nil_cons t b (p ∷ ps) h n e = rw (take_chunk_end t.offset t.carry t.skipping b h e) refl

take_chunks_push :
    (t : Tailer) (b : ℕ) (ps : List Text)
    → ps ≢ []
    → (b == b'\n') ≡ false
    → take_chunks t (push_head b ps)
      ≡ (let first = feed t b in let rest = take_chunks first.0 ps in (rest.0, first.1 ++ rest.1))
take_chunks_push t b [] n e = absurd (n refl)
take_chunks_push t b (p ∷ ps) n e = rw (take_chunks-feed t b p ps e, feed_quiet t b e) refl

pub take_chunks-eq-feed_all :
    (t : Tailer) (s : Text) → IsBounded t → take_chunks t (split_lines s) ≡ feed_all t s
unfolding take_chunks split_lines feed_all
take_chunks-eq-feed_all t [] h = take_chunk_none t.offset t.carry t.skipping h
take_chunks-eq-feed_all t (b ∷ s) h = elim (Bool-cases (b == b'\n')) [
  | inl e ↦
      rw
        (
          e,
          take_chunks_nil_cons t b (split_lines s) h (split_lines-ne-nil s) e,
          take_chunks-eq-feed_all (feed t b).0 s (feed-IsBounded t b h),
        )
        refl
  | inr e ↦
      rw
        (
          e,
          take_chunks_push t b (split_lines s) (split_lines-ne-nil s) e,
          take_chunks-eq-feed_all (feed t b).0 s (feed-IsBounded t b h),
        )
        refl
]
