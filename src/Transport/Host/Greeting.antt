-- ===== src/Transport/Host/Greeting.antt =====
-- What a session host sends to a client that attaches.
use uber_coder.Prelude.{
  ℕ, ◌≤◌, ◌≡◌, refl, ap, ◌∙◌, sym, true, Option, none, some, List, [], ◌∷◌, ◌++◌, map, arith,
  if◌then◌else◌, ◌==◌, ltb-false, Text, append-nil, append_assoc, ==_iff,
}
use uber_coder.Transport.Replay.{ReplayBuffer, Replay, since, trim, first_seq}
use uber_coder.Transport.Host.State.{
  Host, Env, Effect, Outbound, ChildExit, natural, sends, welcome, gap, entry, cursor_of,
  max_client_backlog_bytes,
}
use uber_coder.Transport.Host.Actions.{send_effects, send_all, exit_messages}
use uber_coder.Transport.Host.Clients.{
  attach, update_connection, greet, replay, replay_messages, replace_previous, welcome_of,
}
use uber_coder.Transport.Host.Quiet.{send_all-state}

-- What a client learns of the child's output: that lines are missing, or a line with its number.
pub data Received : Type 0 where
  told_gap : ℕ → Received
  got : ℕ × Text → Received

abbrev pub received_in : Outbound → List Received
received_in (entry e) = got e ∷ []
received_in (gap first) = told_gap first ∷ []
received_in _ = []

-- What a socket is sent of it, in the order of sending.
abbrev pub received_to : ℕ → List Effect → List Received
received_to c [] = []
received_to c (sends s m ∷ es) = (if s == c then received_in m else []) ++ received_to c es
received_to c (_ ∷ es) = received_to c es

-- The socket takes what it is sent.
abbrev pub IsReady : Env → ℕ → Type 0
IsReady env c = (env.writable c ≡ true) × (env.backlog c ≤ max_client_backlog_bytes)

pub received_to-append :
    (c : ℕ) (es fs : List Effect) → received_to c (es ++ fs) ≡ received_to c es ++ received_to c fs
received_to-append c [] fs = refl
received_to-append c (sends s m ∷ es) fs = rw (received_to-append c es fs) (
    sym (append_assoc (if s == c then received_in m else []) (received_to c es) (received_to c fs)))
received_to-append c (_ ∷ es) fs = received_to-append c es fs

abbrev all_received : List Outbound → List Received
all_received [] = []
all_received (m ∷ ms) = received_in m ++ all_received ms

==-refl : (c : ℕ) → (c == c) ≡ true
==-refl c = (==_iff c c).1 refl

send_effects-ready :
    (env : Env) (c : ℕ) (m : Outbound) → IsReady env c → send_effects env c m ≡ sends c m ∷ []
unfolding send_effects
send_effects-ready env c m r = rw (r.0, ltb-false max_client_backlog_bytes (env.backlog c) r.1)

-- A ready socket gets the messages of a loop of sends.
pub send_all-ready :
    (env : Env) (c : ℕ) (ms : List Outbound) (h : Host)
    → IsReady env c
    → received_to c (send_all env c ms h).1 ≡ all_received ms
unfolding send_all
send_all-ready env c [] h r = refl
send_all-ready env c (m ∷ ms) h r =
    rw (send_effects-ready env c m r, ==-refl c)
      (ap (◌++◌ (received_in m)) (send_all-ready env c ms h r))

all_received-map : (xs : List (ℕ × Text)) → all_received (map entry xs) ≡ map got xs
all_received-map [] = refl
all_received-map (x ∷ xs) = ap (◌∷◌ (got x)) (all_received-map xs)

-- A gap, if there is one, is told in front of the lines.
abbrev pub received_replay : ℕ → Replay → List Received
received_replay first r = (if r.gap then told_gap first ∷ [] else []) ++ map got r.lines

all_received-replay :
    (first : ℕ) (r : Replay) → all_received (replay_messages first r) ≡ received_replay first r
unfolding replay_messages
all_received-replay first r = ground (arith, all_received-map r.lines)

replace_previous-silent :
    (env : Env) (c : ℕ) (p : Option ℕ) (h : Host)
    → (received_to c (replace_previous env c p h).1 ≡ []) × ((replace_previous env c p h).0 ≡ h)
unfolding replace_previous send_effects
replace_previous-silent env c none h = (refl, refl)
replace_previous-silent env c (some p) h = (ground arith, ground arith)

all_received-exit : (o : Option ChildExit) → all_received (exit_messages o) ≡ []
all_received-exit none = refl
all_received-exit (some e) = refl

-- What `greet` answers to a cursor is what `since` answers of the trimmed buffer.
abbrev pub answer : ℕ → Env → Host → ReplayBuffer × Replay
answer n env h = since n env.now (trim env.now h.buffer)

greet-delivers :
    (env : Env) (c n : ℕ) (h : Host)
    → IsReady env c
    → (received_to c (greet env c (natural n) h).1
        ≡ received_replay (first_seq (answer n env h).0) (answer n env h).1)
      × ((greet env c (natural n) h).0 ≡ record h { buffer = (answer n env h).0 })
unfolding greet replay cursor_of
greet-delivers env c n h r =
    let h1 : Host = record h { buffer = trim env.now h.buffer } in
    let (b, a) = answer n env h in
    let h2 : Host = record h1 { buffer = b } in
    let e = send_all-ready env c (replay_messages (first_seq b) a) h2 r in
    let x = all_received-replay (first_seq b) a in
    let h3 : Host = (send_all env c (replay_messages (first_seq b) a) h2).0 in
    let e' = send_all-ready env c (exit_messages h3.child_exit) h3 r in
    let x' = all_received-exit h3.child_exit in
    (
      rw (send_effects-ready env c (welcome (welcome_of h1)) r)
          (simp (received_to-append, e, x, e', x', append-nil) (ground (arith))),
      send_all-state env c (exit_messages h3.child_exit) h3
          ∙ send_all-state env c (replay_messages (first_seq b) a) h2,
    )

pub attach-delivers :
    (env : Env) (c n : ℕ) (h : Host)
    → IsReady env c
    → (received_to c (attach env c (natural n) h).1
        ≡ received_replay (first_seq (answer n env h).0) (answer n env h).1)
      × ((attach env c (natural n) h).0.client ≡ some c)
      × ((attach env c (natural n) h).0.buffer ≡ (answer n env h).0)
unfolding attach
attach-delivers env c n h r =
    let h1 : Host = record h {
      client = some c;
      connections = update_connection c (λ x. record x { attached = true }) h.connections;
    } in
    let (e, s) = replace_previous-silent env c h.client h1 in
    let (e', s') = greet-delivers env c n h1 r in
    (rw (received_to-append, e, s) e', rw s (ap (λ k. k.client) s'), rw s (ap (λ k. k.buffer) s'))
