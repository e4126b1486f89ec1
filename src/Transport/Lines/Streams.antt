-- ===== src/Transport/Lines/Streams.antt =====
-- What a `LineSplitter` reports for a whole stream: the framed lines, the unterminated rest on
-- `end()`, one overflow for a line that is too long, and the same however the stream was cut.
use uber_coder.Prelude.{
  ℕ, ◌≤◌, ◌<◌, ◌≡◌, refl, sym, ap, ◌∙◌, true, false, List, [], ◌∷◌, ◌++◌, flatten, map, ◌==◌,
  if◌then◌else◌, Text, length, arith, append_assoc, append-nil, inl, inr, some, none,
}
use uber_coder.Transport.Lines.{
  Splitter, Event, line, overflow, new_splitter, drop_cr, finish, segment_of, rest_of, emit_line,
}
use uber_coder.Transport.Lines.Chunks.{
  erase, View, view, live_view, dead_view, prepend, feed_all, IsValid, push_all, push_all-feed,
  observe, feed_all-segment-fits, feed_all-segment-long, resume,
}

-- No newline in it.
abbrev pub NoNewline : List ℕ → Type 0
NoNewline [] = Unit
NoNewline (b ∷ bs) = ((b == 10) ≡ false) × NoNewline bs

-- Lines that a splitter with this limit takes.
abbrev pub AllFit : ℕ → List (List ℕ) → Type 0
AllFit max [] = Unit
AllFit max (l ∷ ls) = (NoNewline l × (length l ≤ max)) × AllFit max ls

-- The lines with a newline behind each.
abbrev pub framed : List (List ℕ) → List ℕ
framed [] = []
framed (l ∷ ls) = l ++ 10 ∷ framed ls

module _ (decode : List ℕ → Text) (max : ℕ) where
  new_splitter-IsValid : IsValid decode max (new_splitter max)
  unfolding new_splitter flatten
  new_splitter-IsValid = (refl, inr (record { counted = refl; bounded = omega arith }))

  -- What is reported does not depend on how the stream was cut into chunks, and neither does
  -- whether the splitter has given up.
  pub push_all-chunks :
      (cs ds : List (List ℕ))
      → flatten cs ≡ flatten ds
      → (map erase (push_all decode (new_splitter max) cs).1
          ≡ map erase (push_all decode (new_splitter max) ds).1)
        × ((push_all decode (new_splitter max) cs).0.dead
            ≡ (push_all decode (new_splitter max) ds).0.dead)
  push_all-chunks cs ds e = (
    ap {A = View × List Event} (λ r. r.1) both,
    ap {A = View × List Event} (λ r. r.0.stopped) both,
  )
    where
      both :
          observe (push_all decode (new_splitter max) cs)
          ≡ observe (push_all decode (new_splitter max) ds)
      both =
          (push_all-feed decode max (new_splitter max) cs new_splitter-IsValid).0
          ∙ ap (feed_all decode max (view (new_splitter max))) e
          ∙ sym (push_all-feed decode max (new_splitter max) ds new_splitter-IsValid).0

  segment_of-line :
      (l rest : List ℕ)
      → NoNewline l
      → (segment_of (l ++ 10 ∷ rest) ≡ l) × (rest_of (l ++ 10 ∷ rest) ≡ some rest)
  unfolding segment_of rest_of
  segment_of-line [] rest h = (refl, refl)
  segment_of-line (b ∷ bs) rest h = ground (arith, segment_of-line bs rest h.1)

  segment_of-tail : (l : List ℕ) → NoNewline l → (segment_of l ≡ l) × (rest_of l ≡ none)
  unfolding segment_of rest_of
  segment_of-tail [] h = (refl, refl)
  segment_of-tail (b ∷ bs) h = ground (arith, segment_of-tail bs h.1)

  abbrev pub report : List ℕ → Event
  report l = line (drop_cr (decode l))

  feed_all-line :
      (l rest : List ℕ)
      → NoNewline l
      → length l ≤ max
      → feed_all decode max (live_view []) (l ++ 10 ∷ rest)
        ≡ prepend (report l ∷ []) (feed_all decode max (live_view []) rest)
  unfolding resume
  feed_all-line l rest h k =
      let (e, r) = segment_of-line l rest h in
      feed_all-segment-fits decode max [] (l ++ 10 ∷ rest) (rw e (omega (arith, k))) ∙ rw (e, r)

  -- Framed lines are reported in order, and reading goes on behind them.
  feed_all-framed :
      (ls : List (List ℕ)) (rest : List ℕ)
      → AllFit max ls
      → feed_all decode max (live_view []) (framed ls ++ rest)
        ≡ prepend (map report ls) (feed_all decode max (live_view []) rest)
  feed_all-framed [] rest h = refl
  feed_all-framed (l ∷ ls) rest h = rw (append_assoc l (10 ∷ framed ls) rest) (
      feed_all-line l (framed ls ++ rest) h.0.0 h.0.1
      ∙ ap (prepend (report l ∷ [])) (feed_all-framed ls rest h.1))

  feed_all-tail :
      (l : List ℕ)
      → NoNewline l
      → length l ≤ max
      → feed_all decode max (live_view []) l ≡ (live_view l, [])
  unfolding resume
  feed_all-tail l h k =
      let (e, r) = segment_of-tail l h in
      feed_all-segment-fits decode max [] l (rw e (omega (arith, k))) ∙ rw (e, r)

  start : Splitter
  start = new_splitter max

  push_all-observe :
      (cs : List (List ℕ))
      → observe (push_all decode start cs) ≡ feed_all decode max (live_view []) (flatten cs)
  unfolding start new_splitter flatten
  push_all-observe cs = (push_all-feed decode max start cs new_splitter-IsValid).0

  finish-IsSound :
      (s : Splitter) (tail : List ℕ)
      → IsValid decode max s
      → view s ≡ live_view tail
      → (finish decode s).1 ≡ (if length tail == 0 then [] else report tail ∷ [])
  unfolding finish emit_line
  finish-IsSound s tail (m, inl d) e = ground (arith, ap (λ r. r.stopped) e)
  finish-IsSound s tail (m, inr v) e =
      ground (arith, v.counted, ap (λ r. r.stopped) e, ap (λ r. r.pending) e)

  -- A stream of framed lines and an unterminated rest, cut in any way, is reported as exactly
  -- these lines, and `end()` then reports the rest if there is one.
  pub finish-push_all :
      (ls : List (List ℕ)) (tail : List ℕ) (cs : List (List ℕ))
      → AllFit max ls
      → NoNewline tail
      → length tail ≤ max
      → flatten cs ≡ framed ls ++ tail
      → (map erase (push_all decode (new_splitter max) cs).1 ≡ map report ls)
        × ((finish decode (push_all decode (new_splitter max) cs).0).1
            ≡ (if length tail == 0 then [] else report tail ∷ []))
  unfolding start
  finish-push_all ls tail cs h k n e = (
    ap {A = View × List Event} (λ r. r.1) seen,
    finish-IsSound (push_all decode start cs).0 tail
        (push_all-feed decode max start cs new_splitter-IsValid).1
        (ap {A = View × List Event} (λ r. r.0) seen),
  )
    where
      seen : observe (push_all decode start cs) ≡ (live_view tail, map report ls)
      seen =
          push_all-observe cs
          ∙ rw e (feed_all-framed ls tail h)
          ∙ ap (prepend (map report ls)) (feed_all-tail tail k n)
          ∙ rw append-nil

  -- A line above the limit is reported as one overflow, behind the lines before it, and nothing
  -- that follows is reported.
  pub push_all-overflow :
      (ls : List (List ℕ)) (rest : List ℕ) (cs : List (List ℕ))
      → AllFit max ls
      → max < length (segment_of rest)
      → flatten cs ≡ framed ls ++ rest
      → (map erase (push_all decode (new_splitter max) cs).1 ≡ map report ls ++ overflow 0 ∷ [])
        × ((push_all decode (new_splitter max) cs).0.dead ≡ true)
  unfolding start
  push_all-overflow ls rest cs h k e = (
    ap {A = View × List Event} (λ r. r.1) seen,
    ap {A = View × List Event} (λ r. r.0.stopped) seen,
  )
    where
      seen : observe (push_all decode start cs) ≡ (dead_view, map report ls ++ overflow 0 ∷ [])
      seen =
          push_all-observe cs
          ∙ rw e (feed_all-framed ls rest h)
          ∙ ap (prepend (map report ls))
              (feed_all-segment-long decode max [] rest (omega arith) (omega (arith, k)))
