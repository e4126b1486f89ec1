-- ===== src/Transport/Replay/Bounds.antt =====
-- The replay buffer stays within its bytes and its age, whatever is pushed.
use uber_coder.Prelude.{
  ℕ, ◌+◌, ◌-◌, ◌≤◌, ◌≡◌, refl, ◌||◌, List, [], ◌∷◌, ◌++◌, ltb, Text, arith, Bool-cases, inl, inr,
}
use uber_coder.Transport.Replay.{BufferedLine, ReplayBuffer, new_buffer, trim_loop, trim, push}
use uber_coder.Transport.Replay.History.{total_bytes, total-append}

-- The lines were buffered in the order of their times, between `low` and `high`.
abbrev pub Timed : ℕ → ℕ → List BufferedLine → Type 0
Timed low high [] = low ≤ high
Timed low high (e ∷ es) = (low ≤ e.at) × Timed e.at high es

-- No line is older than `age`.
abbrev pub AllYoung : ℕ → ℕ → List BufferedLine → Type 0
AllYoung age now [] = Unit
AllYoung age now (e ∷ es) = (now - e.at ≤ age) × AllYoung age now es

-- What holds of a buffer last touched at `high`.
pub record IsBounded (high : ℕ) (b : ReplayBuffer) : Type 0 where
  pub counted : b.bytes ≡ total_bytes b.entries
  pub small : b.bytes ≤ b.max_bytes
  pub young : AllYoung b.max_age_ms high b.entries
  pub timed : Timed 0 high b.entries

Timed-low : (a b high : ℕ) (es : List BufferedLine) → a ≤ b → Timed b high es → Timed a high es
Timed-low a b high [] h t = omega arith
Timed-low a b high (e ∷ es) h t = (omega arith, t.1)

Timed-AllYoung :
    (age now low high : ℕ) (es : List BufferedLine)
    → Timed low high es
    → now - low ≤ age
    → AllYoung age now es
Timed-AllYoung age now low high [] t h = tt
Timed-AllYoung age now low high (e ∷ es) t h =
    (omega arith, Timed-AllYoung age now e.at high es t.1 (omega arith))

Timed-append :
    (low high now : ℕ) (es : List BufferedLine) (x : BufferedLine)
    → Timed low high es
    → high ≤ now
    → x.at ≡ now
    → Timed low now (es ++ x ∷ [])
Timed-append low high now [] x t h e = (omega arith, omega arith)
Timed-append low high now (y ∷ es) x t h e = (t.0, Timed-append y.at high now es x t.1 h e)

Timed-high :
    (low high now : ℕ) (es : List BufferedLine) → Timed low high es → high ≤ now → Timed low now es
Timed-high low high now [] t h = omega arith
Timed-high low high now (y ∷ es) t h = (t.0, Timed-high y.at high now es t.1 h)

record Left (mb age now low high : ℕ) (es : List BufferedLine) (bytes : ℕ) : Type 0 where
  counted : bytes ≡ total_bytes es
  small : bytes ≤ mb
  young : AllYoung age now es
  timed : Timed low high es

trim_loop-Left :
    (mb age now low high bytes : ℕ) (es : List BufferedLine)
    → Timed low high es
    → bytes ≡ total_bytes es
    → Left mb age now low high (trim_loop mb age now bytes es).0 (trim_loop mb age now bytes es).1
unfolding trim_loop
trim_loop-Left mb age now low high bytes [] t e = record {
  counted = e;
  small = omega (arith, e);
  young = tt;
  timed = t;
}
trim_loop-Left mb age now low high bytes (x ∷ es) t e =
    elim (Bool-cases (ltb mb bytes || ltb age (now - x.at))) [
      | inl drop ↦ rw drop (
          trim_loop-Left mb age now low high (bytes - x.bytes) es
            (Timed-low low x.at high es t.0 t.1) (omega (arith, e)))
      | inr keep ↦ rw keep (record {
        counted = e;
        small = ground arith;
        young = (ground arith, Timed-AllYoung age now x.at high es t.1 (ground arith));
        timed = t;
      })
    ]

-- A trim at a later time brings any buffer with true counters within its bounds.
pub trim-IsBounded :
    (now high : ℕ) (b : ReplayBuffer)
    → b.bytes ≡ total_bytes b.entries
    → Timed 0 high b.entries
    → high ≤ now
    → IsBounded now (trim now b)
unfolding trim
trim-IsBounded now high b e t h = within (
    trim_loop-Left b.max_bytes b.max_age_ms now 0 now b.bytes b.entries
      (Timed-high 0 high now b.entries t h) e)
  where
    within :
        Left b.max_bytes b.max_age_ms now 0 now
          (trim_loop b.max_bytes b.max_age_ms now b.bytes b.entries).0
          (trim_loop b.max_bytes b.max_age_ms now b.bytes b.entries).1
        → IsBounded now (trim now b)
    within l = record { counted = l.counted; small = l.small; young = l.young; timed = l.timed }

-- Every push at a later time leaves the buffer within its byte limit and holding no line older
-- than the age limit.
pub push-IsBounded :
    (byte_length : Text → ℕ) (line : Text) (now high : ℕ) (b : ReplayBuffer)
    → IsBounded high b
    → high ≤ now
    → IsBounded now (push byte_length line now b).0
unfolding push
push-IsBounded byte_length line now high b v h =
    elim (Bool-cases (ltb b.max_bytes (byte_length line))) [
      | inl big ↦
          rw big (record { counted = refl; small = omega arith; young = tt; timed = omega arith })
      | inr fits ↦ rw fits (
          trim-IsBounded now now
            (record b {
              entries = b.entries ++ entry ∷ [];
              bytes = b.bytes + byte_length line;
              last_seq = b.last_seq + 1;
            })
            (omega (arith, v.counted, total-append b.entries (entry ∷ [])))
            (Timed-append 0 high now b.entries entry v.timed h refl) (omega arith))
    ]
  where
    entry : BufferedLine
    entry = record { seq = b.last_seq + 1; line = line; bytes = byte_length line; at = now }

pub new_buffer-IsBounded : (mb age : ℕ) → IsBounded 0 (new_buffer mb age)
unfolding new_buffer
new_buffer-IsBounded mb age = record {
  counted = refl;
  small = omega arith;
  young = tt;
  timed = omega arith;
}
