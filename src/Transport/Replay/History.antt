-- ===== src/Transport/Replay/History.antt =====
-- A replay buffer against the whole history of the child's lines: it holds the latest of them under
-- their true numbers, within its bounds, and a replay with no gap misses nothing.
use uber_coder.Prelude.{
  ℕ, zero, suc, ◌+◌, ◌-◌, ◌≤◌, ◌<◌, ◌≡◌, refl, sym, ap, ◌∙◌, subst, true, false, ◌||◌, List, [],
  ◌∷◌, ◌++◌, map, ltb, ◌==◌, Text, filter, length, drop, arith, append_assoc, append-nil,
  length-append, Bool-cases, lt→ltb, ltb-false, ◌⊎◌, inl, inr,
}
use uber_coder.Transport.Replay.{
  BufferedLine, ReplayBuffer, new_buffer, first_of, first_seq, trim_loop, trim, push, numbered,
  Replay, since_kept, since,
}

-- The lines of a history that follow the first `n`, under their numbers.
abbrev pub number_from : ℕ → List Text → List (ℕ × Text)
number_from n [] = []
number_from n (l ∷ ls) = (suc n, l) ∷ number_from (suc n) ls

abbrev pub total_bytes : List BufferedLine → ℕ
total_bytes [] = 0
total_bytes (e ∷ es) = e.bytes + total_bytes es

-- `entries` are the lines `recent`, numbered behind `n`.
abbrev pub Holds : ℕ → List Text → List BufferedLine → Type 0
Holds n [] [] = Unit
Holds n [] (e ∷ es) = ⊥
Holds n (l ∷ ls) [] = ⊥
Holds n (l ∷ ls) (e ∷ es) = (e.seq ≡ suc n) × (e.line ≡ l) × Holds (suc n) ls es

-- The buffer holds the end of `history`, and its counters are true.
pub record Keeps (history : List Text) (b : ReplayBuffer) : Type 0 where
  pub old : List Text
  pub recent : List Text
  pub split : history ≡ old ++ recent
  pub held : Holds (length old) recent b.entries
  pub numbered_to : b.last_seq ≡ length history
  pub counted : b.bytes ≡ total_bytes b.entries

-- A record of what a trim removed from the front.
record Trimmed (n : ℕ) (recent : List Text) (es : List BufferedLine) (bytes : ℕ) : Type 0 where
  gone : List Text
  kept : List Text
  parts : recent ≡ gone ++ kept
  first : ℕ
  first_at : first ≡ n + length gone
  holds : Holds first kept es
  sums : bytes ≡ total_bytes es

trim_loop-Trimmed :
    (max_bytes max_age now n bytes : ℕ) (recent : List Text) (es : List BufferedLine)
    → Holds n recent es
    → bytes ≡ total_bytes es
    → Trimmed n recent
        (trim_loop max_bytes max_age now bytes es).0
        (trim_loop max_bytes max_age now bytes es).1
unfolding trim_loop
trim_loop-Trimmed mb ma now n bytes [] [] h e = record {
  gone = [];
  kept = [];
  parts = refl;
  first = n;
  first_at = omega arith;
  holds = h;
  sums = e;
}
trim_loop-Trimmed mb ma now n bytes [] (x ∷ es) h e = absurd h
trim_loop-Trimmed mb ma now n bytes (l ∷ ls) [] h e = absurd h
trim_loop-Trimmed mb ma now n bytes (l ∷ ls) (x ∷ es) h e =
    elim (Bool-cases (ltb mb bytes || ltb ma (now - x.at))) [
      | inl drop ↦ rw drop (
          step (trim_loop-Trimmed mb ma now (suc n) (bytes - x.bytes) ls es h.2 (omega (arith, e))))
      | inr keep ↦ rw keep (record {
        gone = [];
        kept = l ∷ ls;
        parts = refl;
        first = n;
        first_at = omega arith;
        holds = h;
        sums = e;
      })
    ]
  where
    step :
        {es' : List BufferedLine} {b' : ℕ} → Trimmed (suc n) ls es' b' → Trimmed n (l ∷ ls) es' b'
    step t = record {
      gone = l ∷ t.gone;
      kept = t.kept;
      parts = ap (◌∷◌ l) t.parts;
      first = t.first;
      first_at = omega (arith, t.first_at);
      holds = t.holds;
      sums = t.sums;
    }

pub trim-Keeps : (now : ℕ) (h : List Text) (b : ReplayBuffer) → Keeps h b → Keeps h (trim now b)
unfolding trim
trim-Keeps now h b k = after (
    trim_loop-Trimmed b.max_bytes b.max_age_ms now (length k.old) b.bytes k.recent b.entries k.held
      k.counted)
  where
    after :
        Trimmed
          (length k.old)
          k.recent
          (trim_loop b.max_bytes b.max_age_ms now b.bytes b.entries).0
          (trim_loop b.max_bytes b.max_age_ms now b.bytes b.entries).1
        → Keeps h (trim now b)
    after t = record {
      old = k.old ++ t.gone;
      recent = t.kept;
      split = k.split ∙ ap (◌++◌ k.old) t.parts ∙ sym (append_assoc k.old t.gone t.kept);
      held =
          subst (λ n. Holds n t.kept (trim_loop b.max_bytes b.max_age_ms now b.bytes b.entries).0)
            (t.first_at ∙ sym (length-append k.old t.gone)) t.holds;
      numbered_to = k.numbered_to;
      counted = t.sums;
    }

Holds-append :
    (n : ℕ) (ls : List Text) (es : List BufferedLine) (x : BufferedLine)
    → Holds n ls es
    → x.seq ≡ n + length ls + 1
    → Holds n (ls ++ x.line ∷ []) (es ++ x ∷ [])
Holds-append n [] [] x h e = (omega (arith, e), refl, tt)
Holds-append n [] (y ∷ es) x h e = absurd h
Holds-append n (l ∷ ls) [] x h e = absurd h
Holds-append n (l ∷ ls) (y ∷ es) x h e =
    (h.0, h.1, Holds-append (suc n) ls es x h.2 (omega (arith, e)))

pub total-append :
    (es fs : List BufferedLine) → total_bytes (es ++ fs) ≡ total_bytes es + total_bytes fs
total-append [] fs = omega arith
total-append (e ∷ es) fs = omega (arith, total-append es fs)

-- A new buffer keeps the empty history.
pub new_buffer-Keeps : (mb ma : ℕ) → Keeps [] (new_buffer mb ma)
unfolding new_buffer
new_buffer-Keeps mb ma = record {
  old = [];
  recent = [];
  split = refl;
  held = tt;
  numbered_to = refl;
  counted = refl;
}

-- A push appends the line to the history that the buffer keeps, and answers its number.
pub push-Keeps :
    (byte_length : Text → ℕ) (line : Text) (now : ℕ) (h : List Text) (b : ReplayBuffer)
    → Keeps h b
    → Keeps (h ++ line ∷ []) (push byte_length line now b).0
      × ((push byte_length line now b).1 ≡ length h + 1)
unfolding push
push-Keeps byte_length line now h b k = elim (Bool-cases (ltb b.max_bytes (byte_length line))) [
  | inl big ↦ rw big (
    record {
      old = h ++ line ∷ [];
      recent = [];
      split = sym (append-nil (h ++ line ∷ []));
      held = tt;
      numbered_to = omega (arith, k.numbered_to, length-append h (line ∷ []));
      counted = refl;
    },
    omega (arith, k.numbered_to),
  )
  | inr fits ↦ rw fits (
    trim-Keeps now (h ++ line ∷ [])
        (record b {
          entries = b.entries ++ entry ∷ [];
          bytes = b.bytes + byte_length line;
          last_seq = b.last_seq + 1;
        })
        added,
    omega (arith, k.numbered_to),
  )
]
  where
    entry : BufferedLine
    entry = record { seq = b.last_seq + 1; line = line; bytes = byte_length line; at = now }

    added : Keeps (h ++ line ∷ []) (record b {
      entries = b.entries ++ entry ∷ [];
      bytes = b.bytes + byte_length line;
      last_seq = b.last_seq + 1;
    })
    added = record {
      old = k.old;
      recent = k.recent ++ line ∷ [];
      split = ap (λ t. t ++ line ∷ []) k.split ∙ append_assoc k.old k.recent (line ∷ []);
      held =
          Holds-append (length k.old) k.recent b.entries entry k.held
            (omega (arith, k.numbered_to, ap length k.split, length-append k.old k.recent));
      numbered_to = omega (arith, k.numbered_to, length-append h (line ∷ []));
      counted = omega (arith, k.counted, total-append b.entries (entry ∷ []));
    }

filter-Holds_all :
    (cut n : ℕ) (ls : List Text) (es : List BufferedLine)
    → cut ≤ n
    → Holds n ls es
    → map numbered (filter (λ e. ltb cut e.seq) es) ≡ number_from n ls
filter-Holds_all cut n [] [] c h = refl
filter-Holds_all cut n [] (y ∷ es) c h = absurd h
filter-Holds_all cut n (l ∷ ls) [] c h = absurd h
filter-Holds_all cut n (l ∷ ls) (y ∷ es) c h = rw (
  lt→ltb cut y.seq (omega (arith, h.0)),
  h.0,
  h.1,
  filter-Holds_all cut (suc n) ls es (omega arith) h.2,
)

filter-Holds-drop :
    (k cut n : ℕ) (ls : List Text) (es : List BufferedLine)
    → cut ≡ n + k
    → Holds n ls es
    → map numbered (filter (λ e. ltb cut e.seq) es) ≡ number_from cut (drop k ls)
filter-Holds-drop zero cut n ls es c h =
    filter-Holds_all cut n ls es (omega arith) h ∙ ap (λ m. number_from m ls) (omega (arith, c))
filter-Holds-drop (suc k) cut n [] [] c h = refl
filter-Holds-drop (suc k) cut n [] (y ∷ es) c h = absurd h
filter-Holds-drop (suc k) cut n (l ∷ ls) [] c h = absurd h
filter-Holds-drop (suc k) cut n (l ∷ ls) (y ∷ es) c h =
    rw (ltb-false cut y.seq (omega (arith, h.0)))
      (filter-Holds-drop k cut (suc n) ls es (omega (arith, c)) h.2)

first_of-Holds :
    (n next : ℕ) (ls : List Text) (es : List BufferedLine)
    → Holds n ls es
    → next ≡ n + length ls + 1
    → first_of es next ≡ n + 1
unfolding first_of
first_of-Holds n next [] [] h e = omega (arith, e)
first_of-Holds n next [] (y ∷ es) h e = absurd h
first_of-Holds n next (l ∷ ls) [] h e = absurd h
first_of-Holds n next (l ∷ ls) (y ∷ es) h e = omega (arith, h.0)

-- The oldest number that the buffer can replay is the one behind what it has dropped.
first_seq-Keeps :
    (h : List Text) (b : ReplayBuffer) (k : Keeps h b) → first_seq b ≡ length k.old + 1
unfolding first_seq
first_seq-Keeps h b k =
    first_of-Holds (length k.old) (b.last_seq + 1) k.recent b.entries k.held
      (omega (arith, k.numbered_to, ap length k.split, length-append k.old k.recent))

drop-append : (xs ys : List Text) (k : ℕ) → drop (length xs + k) (xs ++ ys) ≡ drop k ys
drop-append [] ys k = ap (λ n. drop n ys) (omega arith)
drop-append (x ∷ xs) ys k =
    subst (λ n. drop n (x ∷ xs ++ ys) ≡ drop k ys) {x = suc (length xs + k)} (omega arith)
      (drop-append xs ys k)

drop_all : (n : ℕ) (h : List Text) → length h ≤ n → drop n h ≡ []
drop_all zero [] e = refl
drop_all zero (x ∷ h) e = absurd (omega arith)
drop_all (suc n) [] e = refl
drop_all (suc n) (x ∷ h) e = drop_all n h (omega arith)

-- `r` answers a cursor `n` on `history`: with no gap it has every line behind the cursor, with a
-- gap it has the lines from `first` on, and at least one line between is missing, or the
-- cursor lies ahead of the history.
abbrev pub Answers : List Text → ℕ → ℕ → Replay → Type 0
Answers history n first r =
    ((r.gap ≡ false) × (n ≤ length history) × (r.lines ≡ number_from n (drop n history)))
    ⊎ ((r.gap ≡ true) × (length history < n) × (r.lines ≡ []))
    ⊎ ((m : ℕ) × (r.gap ≡ true)
        × (n < m)
        × (m ≤ length history)
        × (first ≡ m + 1)
        × (r.lines ≡ number_from m (drop m history)))

drop_old :
    (h old recent : List Text) (n : ℕ)
    → h ≡ old ++ recent
    → length old ≤ n
    → drop n h ≡ drop (n - length old) recent
drop_old h old recent n e l = rw e (
    subst (λ m. drop m (old ++ recent) ≡ drop (n - length old) recent)
      {x = length old + (n - length old)} (omega arith) (drop-append old recent (n - length old)))

since_inside :
    (n : ℕ) (h : List Text) (b : ReplayBuffer) (k : Keeps h b)
    → n ≤ length h
    → Answers h n (first_seq b) (record {
      gap = ltb (n + 1) (first_seq b);
      lines = map numbered (filter (λ e. ltb n e.seq) b.entries);
    })
since_inside n h b k le = elim (Bool-cases (ltb (n + 1) (first_seq b))) [
  | inl gap ↦ inr (
      inr (
        length k.old,
        gap,
        ground (arith, first_seq-Keeps h b k),
        omega (arith, ap length k.split, length-append k.old k.recent),
        first_seq-Keeps h b k,
        filter-Holds_all n (length k.old) k.recent b.entries (ground (arith, first_seq-Keeps h b k))
              k.held
            ∙ ap (number_from (length k.old)) (
                sym (
                  drop_old h k.old k.recent (length k.old) k.split (omega arith)
                  ∙ ap (λ m. drop m k.recent) {y = 0} (omega arith))),
      ))
  | inr no_gap ↦ inl (
    no_gap,
    le,
    filter-Holds-drop (n - length k.old) n (length k.old) k.recent b.entries
          (ground (arith, first_seq-Keeps h b k)) k.held
        ∙ ap (number_from n)
            (sym (drop_old h k.old k.recent n k.split (ground (arith, first_seq-Keeps h b k)))),
  )
]

since_kept-Answers :
    (n : ℕ) (h : List Text) (b : ReplayBuffer)
    → Keeps h b
    → Answers h n (first_seq b) (since_kept n b)
unfolding since_kept
since_kept-Answers n h b k = elim (Bool-cases (ltb b.last_seq n)) [
  | inl ahead ↦ rw ahead (inr (inl (refl, ground (arith, k.numbered_to), refl)))
  | inr reached ↦ elim (Bool-cases (n == b.last_seq)) [
    | inl same ↦
        rw (reached, same) (inl (refl, ground (arith, k.numbered_to), ground (arith, drop_all n h)))
    | inr before ↦ rw (reached, before) (since_inside n h b k (ground (arith, k.numbered_to)))
  ]
]

-- The buffer's own trimming first drops what is too old by `now`.
pub since-Answers :
    (n now : ℕ) (h : List Text) (b : ReplayBuffer)
    → Keeps h b
    → Answers h n (first_seq (since n now b).0) (since n now b).1 × Keeps h (since n now b).0
unfolding since
since-Answers n now h b k =
    let k' = trim-Keeps now h b k in (since_kept-Answers n h (trim now b) k', k')
