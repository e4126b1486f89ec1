-- ===== src/Transport/Lines.antt =====
-- `LineSplitter` of apps/server/src/providers/transport/session-host.ts.
-- A buffer is a list of bytes, a line is a list of code units; `decode` is Node's
-- `Buffer.toString('utf8')`. The two callbacks are the events that a call returns, in order.
pub mod Chunks
pub mod Streams
mod Examples
use uber_coder.Prelude.{
  ℕ, zero, suc, ◌+◌, Bool, true, false, Option, none, some, List, [], ◌∷◌, ◌++◌, flatten, ltb, ◌==◌,
  if◌then◌else◌, Text, length, is_empty,
}

pub record Splitter : Type 0 where
  pub parts : List (List ℕ)
  pub size : ℕ
  pub dead : Bool
  pub max_bytes : ℕ

pub data Event : Type 0 where
  line : Text → Event
  overflow : ℕ → Event

pub new_splitter : ℕ → Splitter
new_splitter max = record { parts = []; size = 0; dead = false; max_bytes = max }

-- `chunk.subarray(start, end)`: the bytes before the next newline, or all of them.
pub segment_of : List ℕ → List ℕ
segment_of [] = []
segment_of (b ∷ bs) = if b == 10 then [] else b ∷ segment_of bs

-- The bytes behind the next newline; `none` when `indexOf` answers -1.
pub rest_of : List ℕ → Option (List ℕ)
rest_of [] = none
rest_of (b ∷ bs) = if b == 10 then some bs else rest_of bs

-- `if (line.endsWith('\r')) line = line.slice(0, -1)`
pub drop_cr : Text → Text
drop_cr [] = []
drop_cr (c ∷ []) = if c == 13 then [] else c ∷ []
drop_cr (c ∷ d ∷ cs) = c ∷ drop_cr (d ∷ cs)

module _ (decode : List ℕ → Text) where
  pub emit_line : Splitter → Splitter × Event
  emit_line s = (record s { parts = []; size = 0 }, line (drop_cr (decode (flatten s.parts))))

  -- What a round of `push` does with the segment once it is known to fit.
  pub add_segment : Splitter → List ℕ → Splitter
  add_segment s segment = record s {
    parts = if is_empty segment then s.parts else s.parts ++ segment ∷ [];
    size = s.size + length segment;
  }

  pub fail_segment : Splitter → List ℕ → Splitter × List Event
  fail_segment s segment =
      let size = s.size + length segment in
      (record s { dead = true; parts = []; size = size }, overflow size ∷ [])

  -- Behind a newline the line is emitted, and the loop goes on.
  pub next_round :
      (Splitter → List ℕ → Splitter × List Event)
      → Splitter
      → Option (List ℕ)
      → Splitter × List Event
  next_round loop s none = (s, [])
  next_round loop s (some rest) =
      let (s2, e) = emit_line s in let (s3, es) = loop s2 rest in (s3, e ∷ es)

  -- The loop of `push` on what is left of the chunk; the fuel counts the rounds.
  pub push_loop : ℕ → Splitter → List ℕ → Splitter × List Event
  push_loop zero s chunk = (s, [])
  push_loop (suc fuel) s [] = (s, [])
  push_loop (suc fuel) s (b ∷ bs) =
      if s.dead
      then (s, [])
      else if ltb s.max_bytes (s.size + length (segment_of (b ∷ bs)))
      then fail_segment s (segment_of (b ∷ bs))
      else next_round (push_loop fuel) (add_segment s (segment_of (b ∷ bs))) (rest_of (b ∷ bs))

  pub push : Splitter → List ℕ → Splitter × List Event
  push s chunk = push_loop (length chunk) s chunk

  -- Flushes a final line that had no trailing newline.
  pub finish : Splitter → Splitter × List Event
  finish s =
      if s.dead
      then (s, [])
      else if s.size == 0
      then (s, [])
      else let (s', e) = emit_line s in (s', e ∷ [])
