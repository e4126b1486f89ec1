-- ===== src/Transport/Replay.antt =====
-- `ReplayBuffer` of apps/server/src/providers/transport/session-host.ts: the child's latest stdout
-- lines, bounded by bytes and by age. Times are milliseconds of one clock. `byte_length` is Node's
-- `Buffer.byteLength(line, 'utf8')`.
pub mod History
pub mod Bounds
mod Examples
use uber_coder.Prelude.{
  ℕ, ◌+◌, ◌-◌, ◌*◌, Bool, true, false, ◌||◌, Option, none, some, List, [], ◌∷◌, ◌++◌, map, ltb,
  ◌==◌, if◌then◌else◌, Text, filter,
}

abbrev pub replay_max_bytes : ℕ
replay_max_bytes = 4 * 1024 * 1024

abbrev pub replay_max_age_ms : ℕ
replay_max_age_ms = 10 * 60 * 1000

pub record BufferedLine : Type 0 where
  pub seq : ℕ
  pub line : Text
  pub bytes : ℕ
  pub at : ℕ

pub record ReplayBuffer : Type 0 where
  pub entries : List BufferedLine
  pub bytes : ℕ
  pub last_seq : ℕ
  pub max_bytes : ℕ
  pub max_age_ms : ℕ

pub new_buffer : ℕ → ℕ → ReplayBuffer
new_buffer max_bytes max_age_ms = record {
  entries = [];
  bytes = 0;
  last_seq = 0;
  max_bytes = max_bytes;
  max_age_ms = max_age_ms;
}

-- The `firstSeq` of the entries, for a given next number.
pub first_of : List BufferedLine → ℕ → ℕ
first_of [] next = next
first_of (e ∷ es) next = e.seq

-- Sequence number of the oldest buffered line, or the next one when the buffer is empty.
unfoldable pub first_seq : ReplayBuffer → ℕ
unfolding first_of
first_seq b = first_of b.entries (b.last_seq + 1)

-- The loop of `trim`: the entries left and their bytes.
pub trim_loop : ℕ → ℕ → ℕ → ℕ → List BufferedLine → List BufferedLine × ℕ
trim_loop max_bytes max_age now bytes [] = ([], bytes)
trim_loop max_bytes max_age now bytes (e ∷ es) =
    let rest = trim_loop max_bytes max_age now (bytes - e.bytes) es in
    if ltb max_bytes bytes || ltb max_age (now - e.at) then rest else (e ∷ es, bytes)

pub trim : ℕ → ReplayBuffer → ReplayBuffer
trim now b =
    let (entries, bytes) = trim_loop b.max_bytes b.max_age_ms now b.bytes b.entries in
    record b { entries = entries; bytes = bytes }

-- The new buffer and the number that the line got.
unfoldable pub push : (Text → ℕ) → Text → ℕ → ReplayBuffer → ReplayBuffer × ℕ
unfolding trim
push byte_length line now b =
    let seq = b.last_seq + 1 in
    let bytes = byte_length line in
    if ltb b.max_bytes bytes
    then (record b { entries = []; bytes = 0; last_seq = seq }, seq)
    else let entry : BufferedLine = record { seq = seq; line = line; bytes = bytes; at = now } in
      (
        trim now (record b {
          entries = b.entries ++ entry ∷ [];
          bytes = b.bytes + bytes;
          last_seq = seq;
        }),
        seq,
      )

abbrev pub numbered : BufferedLine → ℕ × Text
numbered e = (e.seq, e.line)

pub record Replay : Type 0 where
  pub gap : Bool
  pub lines : List (ℕ × Text)

-- `since` behind its `trim`.
pub since_kept : ℕ → ReplayBuffer → Replay
since_kept since_seq b =
    if ltb b.last_seq since_seq
    then record { gap = true; lines = [] }
    else if since_seq == b.last_seq
    then record { gap = false; lines = [] }
    else record {
      gap = ltb (since_seq + 1) (first_seq b);
      lines = map numbered (filter (λ e. ltb since_seq e.seq) b.entries);
    }

-- Lines after `since_seq`, and whether some of them are missing.
unfoldable pub since : ℕ → ℕ → ReplayBuffer → ReplayBuffer × Replay
unfolding trim since_kept
since since_seq now b = let b' = trim now b in (b', since_kept since_seq b')
