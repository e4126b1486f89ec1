-- ===== src/Transport/Host/Attach.antt =====
-- What a client reads that attaches with a cursor: the child's lines from there on, each once and in
-- order, the replayed ones first and the live ones behind them.
use uber_coder.Prelude.{
  ℕ, zero, suc, ◌+◌, ◌≤◌, ◌<◌, ◌≡◌, refl, ap, ◌∙◌, sym, some, List, [], ◌∷◌, ◌++◌, arith, ◌⊎◌, inl,
  inr, Text, length, map, drop, length-append,
}
use uber_coder.Transport.Replay.{push, trim, first_seq}
use uber_coder.Transport.Replay.History.{
  Keeps, Answers, number_from, since-Answers, push-Keeps, trim-Keeps,
}
use uber_coder.Transport.Host.State.{Host, Env, Outbound, natural, entry}
use uber_coder.Transport.Host.Actions.{◌>>◌, with_some, send_all, send_client}
use uber_coder.Transport.Host.Child.{on_child_line}
use uber_coder.Transport.Host.Clients.{attach}
use uber_coder.Transport.Host.Events.{Event, child_line, step, run}
use uber_coder.Transport.Host.Quiet.{send_all-state}
use uber_coder.Transport.Host.Greeting.{
  told_gap, got, received_to, IsReady, received_to-append, send_all-ready, received_replay, answer,
  attach-delivers,
}

-- Lines of the child, each with what Node says at its time.
abbrev pub lines_of : List (Env × Text) → List (Env × Event)
lines_of [] = []
lines_of ((env, l) ∷ ls) = (env, child_line l) ∷ lines_of ls

abbrev pub texts_of : List (Env × Text) → List Text
texts_of [] = []
texts_of ((env, l) ∷ ls) = l ∷ texts_of ls

abbrev pub AllReady : ℕ → List (Env × Text) → Type 0
AllReady c [] = Unit
AllReady c ((env, l) ∷ ls) = IsReady env c × AllReady c ls

send_client-some :
    (env : Env) (c : ℕ) (ms : List Outbound) (h : Host)
    → h.client ≡ some c
    → send_client env ms h ≡ send_all env c ms h
unfolding send_client
send_client-some env c ms h e = ap (λ o. with_some o (λ x. send_all env x ms) h) e

-- A line of the child goes to the client under its number in the history.
line-delivers :
    (env : Env) (c : ℕ) (l : Text) (hist : List Text) (h : Host)
    → IsReady env c
    → h.client ≡ some c
    → Keeps hist h.buffer
    → (received_to c (on_child_line env l h).1 ≡ got (suc (length hist), l) ∷ [])
      × ((on_child_line env l h).0.client ≡ some c)
      × Keeps (hist ++ l ∷ []) (on_child_line env l h).0.buffer
unfolding on_child_line
line-delivers env c l hist h r e k =
    let (k', s) = push-Keeps env.byte_length l env.now hist h.buffer k in
    let (b, q) = push env.byte_length l env.now h.buffer in
    let ms : List Outbound = entry (q, l) ∷ [] in
    let h' : Host = record h { buffer = b } in
    let p = send_client-some env c ms h' e in
    (
      rw p (send_all-ready env c ms h' r ∙ ap (λ (i : ℕ). got (i, l) ∷ []) (omega (arith, s))),
      rw (p, send_all-state env c ms h') e,
      rw (p, send_all-state env c ms h') k',
    )

run-delivers :
    (c : ℕ) (ls : List (Env × Text)) (hist : List Text) (h : Host)
    → AllReady c ls
    → h.client ≡ some c
    → Keeps hist h.buffer
    → received_to c (run (lines_of ls) h).1 ≡ map got (number_from (length hist) (texts_of ls))
unfolding run step
run-delivers c [] hist h r e k = refl
run-delivers c ((env, l) ∷ ls) hist h r e k =
    let (d, e', k') = line-delivers env c l hist h r.0 e k in
    let ih = run-delivers c ls (hist ++ l ∷ []) (on_child_line env l h).0 r.1 e' k' in
    rw (received_to-append, d)
      (ap (◌∷◌ (got (suc (length hist), l))) (
        ih
        ∙ ap (λ n. map got (number_from n (texts_of ls)))
            (omega (arith, length-append hist (l ∷ [])))))

number_from-append :
    (n : ℕ) (xs ys : List Text)
    → number_from n xs ++ number_from (n + length xs) ys ≡ number_from n (xs ++ ys)
number_from-append n [] ys = ap (λ m. number_from m ys) (omega arith)
number_from-append n (x ∷ xs) ys = ap (◌∷◌ (suc n, x)) (
    ap (λ m. number_from (suc n) xs ++ number_from m ys) (omega arith)
    ∙ number_from-append (suc n) xs ys)

drop-append_lt : (n : ℕ) (xs ys : List Text) → n ≤ length xs → drop n (xs ++ ys) ≡ drop n xs ++ ys
drop-append_lt zero xs ys h = refl
drop-append_lt (suc n) [] ys h = absurd (omega arith)
drop-append_lt (suc n) (x ∷ xs) ys h = drop-append_lt n xs ys (omega arith)

length-drop : (n : ℕ) (xs : List Text) → n ≤ length xs → n + length (drop n xs) ≡ length xs
length-drop zero xs h = omega arith
length-drop (suc n) [] h = absurd (omega arith)
length-drop (suc n) (x ∷ xs) h = omega (arith, length-drop n xs (omega arith))

-- A replay from `n` on, and the live lines behind it, are the whole history from `n` on.
number_from-drop :
    (n : ℕ) (hist ls : List Text)
    → n ≤ length hist
    → number_from n (drop n hist) ++ number_from (length hist) ls
      ≡ number_from n (drop n (hist ++ ls))
number_from-drop n hist ls h = rw (drop-append_lt n hist ls h) (
    ap (λ m. number_from n (drop n hist) ++ number_from m ls) (sym (length-drop n hist h))
    ∙ number_from-append n (drop n hist) ls)

map_got-append : (xs ys : List (ℕ × Text)) → map got xs ++ map got ys ≡ map got (xs ++ ys)
map_got-append [] ys = refl
map_got-append (x ∷ xs) ys = ap (◌∷◌ (got x)) (map_got-append xs ys)

-- A client that attaches with a cursor `n` inside the history `hist` and stays current and ready
-- while the child writes `ls` receives every line numbered above `n`, each once and in order; or it
-- is told of one gap and behind it receives every line from the number on that the gap names, each
-- once and in order. It is told nothing else of the child's output.
pub attach-then-lines :
    (env : Env) (c n : ℕ) (hist : List Text) (h : Host) (ls : List (Env × Text))
    → Keeps hist h.buffer
    → IsReady env c
    → AllReady c ls
    → n ≤ length hist
    → let r = (attach env c (natural n) >> run (lines_of ls)) h in
      (received_to c r.1 ≡ map got (number_from n (drop n (hist ++ texts_of ls))))
      ⊎ ((m : ℕ) × (n < m)
          × (received_to c r.1
              ≡ told_gap (m + 1) ∷ map got (number_from m (drop m (hist ++ texts_of ls)))))
attach-then-lines env c n hist h ls k r rs l = cases answered
  where
    start : Keeps hist (trim env.now h.buffer)
    start = trim-Keeps env.now hist h.buffer k

    answered : Answers hist n (first_seq (answer n env h).0) (answer n env h).1
    answered = (since-Answers n env.now hist (trim env.now h.buffer) start).0

    -- The replay from `m` on and the live lines behind it.
    joined :
        (m : ℕ)
        → m ≤ length hist
        → map got (number_from m (drop m hist)) ++ map got (number_from (length hist) (texts_of ls))
          ≡ map got (number_from m (drop m (hist ++ texts_of ls)))
    joined m h1 =
        map_got-append (number_from m (drop m hist)) (number_from (length hist) (texts_of ls))
        ∙ ap (map got) (number_from-drop m hist (texts_of ls) h1)

    received :
        received_to c ((attach env c (natural n) >> run (lines_of ls)) h).1
        ≡ received_replay (first_seq (answer n env h).0) (answer n env h).1
          ++ map got (number_from (length hist) (texts_of ls))
    received =
        let (d, s, b) = attach-delivers env c n h r in
        let live =
          run-delivers c ls hist (attach env c (natural n) h).0 rs s
            (rw b (since-Answers n env.now hist (trim env.now h.buffer) start).1) in
        rw (received_to-append, d, live) refl

    cases :
        Answers hist n (first_seq (answer n env h).0) (answer n env h).1
        → (received_to c ((attach env c (natural n) >> run (lines_of ls)) h).1
            ≡ map got (number_from n (drop n (hist ++ texts_of ls))))
          ⊎ ((m : ℕ) × (n < m)
              × (received_to c ((attach env c (natural n) >> run (lines_of ls)) h).1
                  ≡ told_gap (m + 1) ∷ map got (number_from m (drop m (hist ++ texts_of ls)))))
    cases (inl (g, h1, e)) = inl (received ∙ rw (g, e) (joined n h1))
    cases (inr (inl (g, h1, e))) = absurd (omega arith)
    cases (inr (inr (m, g, h1, h2, f, e))) =
        inr (m, h1, received ∙ rw (g, f, e) (ap (◌∷◌ (told_gap (m + 1))) (joined m h2)))
