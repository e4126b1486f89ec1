-- ===== src/Transport/Lines/Chunks.antt =====
-- What a `LineSplitter` reports does not depend on how the stream was cut into chunks: `push`
-- refines an automaton that reads one byte at a time and keeps the unfinished line only.
use uber_coder.Prelude.{
  ℕ, zero, suc, ◌+◌, ◌≤◌, ◌<◌, ◌≡◌, refl, sym, ap, ◌∙◌, Bool, true, false, Option, none, some, List,
  [], ◌∷◌, ◌++◌, flatten, map, ltb, ◌==◌, if◌then◌else◌, Text, length, is_empty, arith,
  length-append, append-nil, append_assoc, map-append, Bool-cases, Option-cases, ◌⊎◌, inl, inr,
}
use uber_coder.Transport.Lines.{
  Splitter, Event, line, overflow, segment_of, rest_of, drop_cr, emit_line, add_segment,
  fail_segment, next_round, push_loop, push,
}

-- The byte count of an overflow depends on where the chunks end; all else does not.
abbrev pub erase : Event → Event
erase (line t) = line t
erase (overflow n) = overflow 0

pub record View : Type 0 where
  pub pending : List ℕ
  pub stopped : Bool

abbrev pub view : Splitter → View
view s = record { pending = flatten s.parts; stopped = s.dead }

abbrev pub live_view : List ℕ → View
live_view p = record { pending = p; stopped = false }

abbrev pub dead_view : View
dead_view = record { pending = []; stopped = true }

abbrev pub prepend : List Event → View × List Event → View × List Event
prepend es (v, fs) = (v, es ++ fs)

pub record IsSound (s : Splitter) : Type 0 where
  pub counted : s.size ≡ length (flatten s.parts)
  pub bounded : s.size ≤ s.max_bytes

flatten-snoc : (ps : List (List ℕ)) (seg : List ℕ) → flatten (ps ++ seg ∷ []) ≡ flatten ps ++ seg
unfolding flatten
flatten-snoc [] seg = append-nil seg
flatten-snoc (p ∷ ps) seg = ground (arith, flatten-snoc ps seg, append_assoc p (flatten ps) seg)

abbrev add_part : List (List ℕ) → List ℕ → List (List ℕ)
add_part ps seg = if is_empty seg then ps else ps ++ seg ∷ []

flatten-add_part :
    (ps : List (List ℕ)) (seg : List ℕ) → flatten (add_part ps seg) ≡ flatten ps ++ seg
flatten-add_part ps [] = rw append-nil
flatten-add_part ps (b ∷ bs) = flatten-snoc ps (b ∷ bs)

length-rest_of : (c rest : List ℕ) → rest_of c ≡ some rest → length rest < length c
unfolding rest_of
length-rest_of [] rest h = cc
length-rest_of (b ∷ bs) rest h = ground (arith, length-rest_of bs rest)

abbrev pub observe : Splitter × List Event → View × List Event
observe (s, es) = (view s, map erase es)

module _ (decode : List ℕ → Text) where
  -- A stream, cut into chunks as they arrive.
  pub push_all : Splitter → List (List ℕ) → Splitter × List Event
  push_all s [] = (s, [])
  push_all s (c ∷ cs) =
      let (s1, es) = push decode s c in let (s2, fs) = push_all s1 cs in (s2, es ++ fs)

module _ (decode : List ℕ → Text) (max : ℕ) where
  pub feed : View → ℕ → View × List Event
  feed v b =
      if v.stopped
      then (v, [])
      else if b == 10
      then (live_view [], line (drop_cr (decode v.pending)) ∷ [])
      else if ltb max (length v.pending + 1)
      then (dead_view, overflow 0 ∷ [])
      else (live_view (v.pending ++ b ∷ []), [])

  pub feed_all : View → List ℕ → View × List Event
  feed_all v [] = (v, [])
  feed_all v (b ∷ bs) = let (v1, es) = feed v b in prepend es (feed_all v1 bs)

  -- One reading after another is one reading of both.
  pub feed_all-append :
      (v : View) (xs ys : List ℕ)
      → feed_all v (xs ++ ys) ≡ (let (v1, es) = feed_all v xs in prepend es (feed_all v1 ys))
  unfolding feed_all
  feed_all-append v [] ys = refl
  feed_all-append v (x ∷ xs) ys = rw (feed_all-append (feed v x).0 xs ys) (
      ground (
        arith,
        append_assoc (feed v x).1 (feed_all (feed v x).0 xs).1
            (feed_all (feed_all (feed v x).0 xs).0 ys).1,
      ))

  pub feed_all-stopped :
      (p : List ℕ) (c : List ℕ)
      → feed_all (record { pending = p; stopped = true }) c
        ≡ (record { pending = p; stopped = true }, [])
  unfolding feed_all feed
  feed_all-stopped p [] = refl
  feed_all-stopped p (b ∷ bs) = rw (feed_all-stopped p bs)

  unfoldable pub resume : List ℕ → Option (List ℕ) → View × List Event
  resume q none = (live_view q, [])
  resume q (some rest) = prepend (line (drop_cr (decode q)) ∷ []) (feed_all (live_view []) rest)

  pub feed_all-segment-fits :
      (p c : List ℕ)
      → length p + length (segment_of c) ≤ max
      → feed_all (live_view p) c ≡ resume (p ++ segment_of c) (rest_of c)
  unfolding feed_all feed resume segment_of rest_of
  feed_all-segment-fits p [] h = rw append-nil
  feed_all-segment-fits p (b ∷ bs) h = ground (
    arith,
    append-nil p,
    append_assoc p (b ∷ []) (segment_of bs),
    length-append p (b ∷ []),
    feed_all-segment-fits (p ++ b ∷ []) bs,
  )

  pub feed_all-segment-long :
      (p c : List ℕ)
      → length p ≤ max
      → max < length p + length (segment_of c)
      → feed_all (live_view p) c ≡ (dead_view, overflow 0 ∷ [])
  unfolding feed_all feed segment_of
  feed_all-segment-long p [] k h = absurd (omega arith)
  feed_all-segment-long p (b ∷ bs) k h = ground (
    arith,
    length-append p (b ∷ []),
    feed_all-segment-long (p ++ b ∷ []) bs,
    feed_all-stopped [] bs,
  )

  add_segment-IsSound :
      (s : Splitter) (seg : List ℕ)
      → IsSound s
      → s.size + length seg ≤ s.max_bytes
      → IsSound (add_segment decode s seg)
  unfolding add_segment
  add_segment-IsSound s seg v h = record {
    counted = omega (
      arith,
      v.counted,
      ap length (flatten-add_part s.parts seg),
      length-append (flatten s.parts) seg,
    );
    bounded = h;
  }

  next_round-feed :
      (loop : Splitter → List ℕ → Splitter × List Event) (s : Splitter) (seg c : List ℕ)
      → s.dead ≡ false
      → ((rest : List ℕ)
          → rest_of c ≡ some rest
          → observe (loop (record s { parts = []; size = 0 }) rest) ≡ feed_all (live_view []) rest)
      → observe (next_round decode loop (add_segment decode s seg) (rest_of c))
        ≡ resume (flatten s.parts ++ seg) (rest_of c)
  unfolding next_round add_segment emit_line resume
  next_round-feed loop s seg c live ih = elim (Option-cases (rest_of c)) [
    | inl e ↦ rw e (ground (arith, flatten-add_part s.parts seg))
    | inr (rest, e) ↦ rw e (ground (arith, flatten-add_part s.parts seg, ih rest e))
  ]

  push_loop-long :
      (fuel : ℕ) (s : Splitter) (b : ℕ) (bs : List ℕ)
      → s.dead ≡ false
      → ltb s.max_bytes (s.size + length (segment_of (b ∷ bs))) ≡ true
      → push_loop decode (suc fuel) s (b ∷ bs) ≡ fail_segment decode s (segment_of (b ∷ bs))
  unfolding push_loop
  push_loop-long fuel s b bs live long = ground arith

  push_loop-fits :
      (fuel : ℕ) (s : Splitter) (b : ℕ) (bs : List ℕ)
      → s.dead ≡ false
      → ltb s.max_bytes (s.size + length (segment_of (b ∷ bs))) ≡ false
      → push_loop decode (suc fuel) s (b ∷ bs)
        ≡ next_round decode
            (push_loop decode fuel)
            (add_segment decode s (segment_of (b ∷ bs)))
            (rest_of (b ∷ bs))
  unfolding push_loop
  push_loop-fits fuel s b bs live fits = ground arith

  fail_segment-feed :
      (s : Splitter) (c : List ℕ)
      → s.max_bytes ≡ max
      → IsSound s
      → s.dead ≡ false
      → ltb s.max_bytes (s.size + length (segment_of c)) ≡ true
      → observe (fail_segment decode s (segment_of c)) ≡ feed_all (view s) c
  unfolding fail_segment flatten
  fail_segment-feed s c e v live long = rw live (
      sym (
        feed_all-segment-long (flatten s.parts) c (omega (arith, v.counted))
          (ground (arith, v.counted))))

  push_loop-feed :
      (fuel : ℕ) (s : Splitter) (c : List ℕ)
      → s.max_bytes ≡ max
      → IsSound s
      → length c ≤ fuel
      → observe (push_loop decode fuel s c) ≡ feed_all (view s) c
  push_loop-feed zero s [] e v h = unfold feed_all push_loop in refl
  push_loop-feed zero s (b ∷ bs) e v h = absurd (omega arith)
  push_loop-feed (suc fuel) s [] e v h = unfold feed_all push_loop in refl
  push_loop-feed (suc fuel) s (b ∷ bs) e v h = elim (Bool-cases s.dead) [
    | inl dead ↦
        unfold push_loop in ground (arith, dead, feed_all-stopped (flatten s.parts) (b ∷ bs))
    | inr live ↦ elim (Bool-cases (ltb s.max_bytes (s.size + length (segment_of (b ∷ bs))))) [
      | inl long ↦
          ap observe (push_loop-long fuel s b bs live long)
          ∙ fail_segment-feed s (b ∷ bs) e v live long
      | inr fits ↦
          ap observe (push_loop-fits fuel s b bs live fits)
          ∙ next_round-feed (push_loop decode fuel) s (segment_of (b ∷ bs)) (b ∷ bs) live (λ rest r.
            push_loop-feed fuel (record s { parts = []; size = 0 }) rest e
              (unfold flatten in omega arith) (omega (arith, length-rest_of (b ∷ bs) rest r))
            ∙ (unfold flatten in rw live))
          ∙ (rw live
              (sym (feed_all-segment-fits (flatten s.parts) (b ∷ bs) (ground (arith, v.counted)))))
    ]
  ]

  -- From any state that `push` reaches, a chunk is read as its bytes one by one.
  pub push-feed :
      (s : Splitter) (c : List ℕ)
      → s.max_bytes ≡ max
      → IsSound s
      → observe (push decode s c) ≡ feed_all (view s) c
  unfolding push
  push-feed s c e v = push_loop-feed (length c) s c e v (omega arith)

  push_loop-dead :
      (fuel : ℕ) (s : Splitter) (c : List ℕ) → s.dead ≡ true → push_loop decode fuel s c ≡ (s, [])
  unfolding push_loop
  push_loop-dead zero s c d = refl
  push_loop-dead (suc fuel) s [] d = refl
  push_loop-dead (suc fuel) s (b ∷ bs) d = ground (arith, d)

  -- Dead, or sound: what every state of a splitter satisfies.
  abbrev pub IsValid : Splitter → Type 0
  IsValid s = (s.max_bytes ≡ max) × ((s.dead ≡ true) ⊎ IsSound s)

  next_round-IsValid :
      (loop : Splitter → List ℕ → Splitter × List Event) (s : Splitter) (o : Option (List ℕ))
      → IsValid s
      → ((rest : List ℕ)
          → o ≡ some rest
          → IsValid (loop (record s { parts = []; size = 0 }) rest).0)
      → IsValid (next_round decode loop s o).0
  unfolding next_round emit_line
  next_round-IsValid loop s none v h = v
  next_round-IsValid loop s (some rest) v h = h rest refl

  push_loop-IsValid :
      (fuel : ℕ) (s : Splitter) (c : List ℕ) → IsValid s → IsValid (push_loop decode fuel s c).0
  push_loop-IsValid fuel s c (m, inl d) = rw (push_loop-dead fuel s c d) (m, inl d)
  push_loop-IsValid zero s c (m, inr v) = unfold push_loop in (m, inr v)
  push_loop-IsValid (suc fuel) s [] (m, inr v) = unfold push_loop in (m, inr v)
  push_loop-IsValid (suc fuel) s (b ∷ bs) (m, inr v) = elim (Bool-cases s.dead) [
    | inl d ↦ rw (push_loop-dead (suc fuel) s (b ∷ bs) d) (m, inl d)
    | inr live ↦ elim (Bool-cases (ltb s.max_bytes (s.size + length (segment_of (b ∷ bs))))) [
      | inl long ↦ rw (push_loop-long fuel s b bs live long) (unfold fail_segment in (m, inl refl))
      | inr fits ↦ rw (push_loop-fits fuel s b bs live fits) (
          next_round-IsValid (push_loop decode fuel) (add_segment decode s (segment_of (b ∷ bs)))
            (rest_of (b ∷ bs))
            (
              unfold add_segment in m,
              inr (add_segment-IsSound s (segment_of (b ∷ bs)) v (ground arith)),
            )
            (λ rest r.
              push_loop-IsValid fuel
                (record (add_segment decode s (segment_of (b ∷ bs))) { parts = []; size = 0 }) rest
                (unfold add_segment flatten in
                  (m, inr (record { counted = refl; bounded = omega arith })))))
    ]
  ]

  push-IsValid-feed :
      (s : Splitter) (c : List ℕ)
      → IsValid s
      → (observe (push decode s c) ≡ feed_all (view s) c) × IsValid (push decode s c).0
  unfolding push
  push-IsValid-feed s c (m, inl d) = (
    rw (push_loop-dead (length c) s c d, d) (sym (feed_all-stopped (flatten s.parts) c)),
    push_loop-IsValid (length c) s c (m, inl d),
  )
  push-IsValid-feed s c (m, inr v) =
      (push_loop-feed (length c) s c m v (omega arith), push_loop-IsValid (length c) s c (m, inr v))

  pub push_all-feed :
      (s : Splitter) (cs : List (List ℕ))
      → IsValid s
      → (observe (push_all decode s cs) ≡ feed_all (view s) (flatten cs))
        × IsValid (push_all decode s cs).0
  unfolding push_all flatten
  push_all-feed s [] v = unfold feed_all in (refl, v)
  push_all-feed s (c ∷ cs) v =
      let (p, w) = push-IsValid-feed s c v in
      let (q, x) = push_all-feed (push decode s c).0 cs w in
      (rw (feed_all-append (view s) c (flatten cs), ← p, ← q, map-append), x)
