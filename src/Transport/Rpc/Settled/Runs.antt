-- ===== src/Transport/Rpc/Settled/Runs.antt =====
-- Every frame, and every event, keeps the count of a client's requests.
use uber_coder.Prelude.{
  ℕ, ◌+◌, ◌≤◌, ◌≡◌, refl, ap, ◌∙◌, true, Option, none, some, List, [], ◌∷◌, ◌++◌, map, arith,
  is_some, inl, inr, ◌==◌, Text, Bool-cases, Option-cases, ltb,
}
use uber_coder.Transport.Rpc.State.{
  Client, Pending, Effect, RpcId, natural, get, delete, new_client, notifies, reports_run,
  unmatched,
}
use uber_coder.Transport.Rpc.Requests.{
  Response, end_run, take_response, settle_response, pending_of, handle_response, answered, failed,
}
use uber_coder.Transport.Rpc.Server.{handle_server_request, refusal, hold, settle_handler, Settled}
use uber_coder.Transport.Rpc.Events
use uber_coder.Transport.Rpc.Counts.{
  one_if, sent, settled, entries_of, sent-append, settled-append, Tracked, Tracks, Same-Tracks,
}
use uber_coder.Transport.Rpc.Settled.{
  settle-Tracks, start_request-Tracks, on_timeout-Tracks, on_write_failed-Tracks, finish-Tracks,
  notifies-none,
}

-- One step behind another.
chain :
    (i : ℕ) (c c1 c2 : Client) (es fs : List Effect)
    → Tracks i c (c1, es)
    → Tracks i c1 (c2, fs)
    → Tracks i c (c2, es ++ fs)
chain i c c1 c2 es fs p q a s t =
    let u = q (a + sent i es) (s + settled i es) (p a s t) in
    record {
      balance = omega (arith, u.balance, sent-append i es fs, settled-append i es fs);
      once = omega (arith, u.once, sent-append i es fs);
      fresh = λ l. omega (arith, u.fresh l, sent-append i es fs);
      closed = u.closed;
    }

end_run-Tracks : (i : ℕ) (m : Option Text) (c : Client) → Tracks i c (end_run m c)
unfolding end_run
end_run-Tracks i m c = elim (Bool-cases (ltb 0 c.timeout_run)) [
  | inl e ↦ rw e (
      Same-Tracks i c (record c { timeout_run = 0 }, reports_run 0 m ∷ [])
        (record { ids = refl; table = refl; over = refl }) refl refl)
  | inr e ↦
      rw e (Same-Tracks i c (c, []) (record { ids = refl; table = refl; over = refl }) refl refl)
]

end_run-pending : (m : Option Text) (c : Client) → (end_run m c).0.pending ≡ c.pending
unfolding end_run
end_run-pending m c = ground arith

settle_response-counts :
    (i n : ℕ) (x : Pending) (r : Response)
    → (sent i (settle_response n x r) ≡ 0) × (settled i (settle_response n x r) ≡ one_if (n == i))
unfolding settle_response
settle_response-counts i n x (failed p) = (refl, omega arith)
settle_response-counts i n x (answered v) = (refl, omega arith)

-- An entry that was found for a response is in the table under its key.
abbrev IsFound : Option (ℕ × Pending) → Client → Type 0
IsFound none c = Unit
IsFound (some (n, x)) c = is_some (get n c.pending) ≡ true

pending_of-IsFound : (id : RpcId) (c : Client) → IsFound (pending_of id c) c
unfolding pending_of
pending_of-IsFound (RpcId.other t) c = tt
pending_of-IsFound (natural n) c = elim (Option-cases (get n c.pending)) [
  | inl e ↦ rw (e, IsFound) tt
  | inr (x, e) ↦ rw (e, IsFound) (ap is_some e)
]

take_response-Tracks :
    (i : ℕ) (id : RpcId) (r : Response) (o : Option (ℕ × Pending)) (c : Client)
    → IsFound o c
    → Tracks i c (take_response id r o c)
unfolding take_response
take_response-Tracks i id r none c f =
    Same-Tracks i c (c, unmatched id ∷ []) (record { ids = refl; table = refl; over = refl }) refl
      refl
take_response-Tracks i id r (some (n, x)) c f =
    let (p, q) = settle_response-counts i n x r in
    settle-Tracks i n c (record c { pending = delete n c.pending }) (settle_response n x r) f refl
      refl refl p q

IsFound-table :
    (o : Option (ℕ × Pending)) (c c' : Client) → c'.pending ≡ c.pending → IsFound o c → IsFound o c'
IsFound-table none c c' e f = tt
IsFound-table (some (n, x)) c c' e f = ap (λ p. is_some (get n p)) e ∙ f

handle_response-Tracks :
    (i : ℕ) (id : RpcId) (r : Response) (c : Client) → Tracks i c (handle_response id r c)
unfolding handle_response
handle_response-Tracks i id r c =
    let o = pending_of id c in
    let m : Option Text = elim o [ none ↦ none | some (n, entry) ↦ some entry.method ] in
    let (c1, es) = end_run m c in
    chain i c c1 (take_response id r o c1).0 es (take_response id r o c1).1 (end_run-Tracks i m c) (
      take_response-Tracks i id r o c1
        (IsFound-table o c c1 (end_run-pending m c) (pending_of-IsFound id c)))

handle_server_request-Tracks :
    (i : ℕ) (id : RpcId) (m : Text) (c : Client) → Tracks i c (handle_server_request id m c)
unfolding handle_server_request refusal
handle_server_request-Tracks i id m c =
    Same-Tracks i c (handle_server_request id m c)
      (record { ids = ground arith; table = ground arith; over = ground arith }) (ground arith)
      (ground arith)

hold-Tracks : (i n : ℕ) (c : Client) → Tracks i c (hold n c)
unfolding hold
hold-Tracks i n c =
    Same-Tracks i c (hold n c)
      (record { ids = ground arith; table = ground arith; over = ground arith }) (ground arith)
      (ground arith)

settle_handler-Tracks : (i n : ℕ) (x : Settled) (c : Client) → Tracks i c (settle_handler n x c)
unfolding settle_handler
settle_handler-Tracks i n x c =
    Same-Tracks i c (settle_handler n x c)
      (record { ids = ground arith; table = ground arith; over = ground arith }) (ground arith)
      (ground arith)

handle_call-Tracks :
    (i : ℕ) (m : Text) (f : Events.IdField) (v : Option Text) (c : Client)
    → Tracks i c (Events.handle_call m f v c)
unfolding Events.handle_call Events.unroutable
handle_call-Tracks i m Events.missing v c =
    let (p, q) = notifies-none i m v c.notification_handlers in
    Same-Tracks i c
      (
        record c { notifications = c.notifications + 1 },
        map (λ h. notifies h m v) c.notification_handlers,
      )
      (record { ids = refl; table = refl; over = refl }) p q
handle_call-Tracks i m Events.invalid v c =
    Same-Tracks i c (Events.unroutable c) (record { ids = refl; table = refl; over = refl }) refl
      refl
handle_call-Tracks i m (Events.valid id) v c = handle_server_request-Tracks i id m c

unroutable-Tracks : (i : ℕ) (c : Client) → Tracks i c (Events.unroutable c)
unfolding Events.unroutable
unroutable-Tracks i c =
    Same-Tracks i c (Events.unroutable c) (record { ids = refl; table = refl; over = refl }) refl
      refl

handle_frame-Tracks : (i : ℕ) (l : Events.Line) (c : Client) → Tracks i c (Events.handle_frame l c)
unfolding Events.handle_frame
handle_frame-Tracks i Events.blank c =
    Same-Tracks i c (c, []) (record { ids = refl; table = refl; over = refl }) refl refl
handle_frame-Tracks i Events.not_json c =
    Same-Tracks i c (record c { parse_failures = c.parse_failures + 1 }, [])
      (record { ids = refl; table = refl; over = refl }) refl refl
handle_frame-Tracks i Events.not_record c = unroutable-Tracks i c
handle_frame-Tracks i (Events.call m f v) c =
    let (c1, es) = end_run (some m) c in
    chain i c c1 (Events.handle_call m f v c1).0 es (Events.handle_call m f v c1).1
      (end_run-Tracks i (some m) c) (handle_call-Tracks i m f v c1)
handle_frame-Tracks i (Events.reply (Events.valid id) (some r)) c = handle_response-Tracks i id r c
handle_frame-Tracks i (Events.reply (Events.valid id) none) c = unroutable-Tracks i c
handle_frame-Tracks i (Events.reply Events.missing r) c = unroutable-Tracks i c
handle_frame-Tracks i (Events.reply Events.invalid r) c = unroutable-Tracks i c

step-Tracks : (i : ℕ) (e : Events.Event) (c : Client) → Tracks i c (Events.step e c)
unfolding Events.step Events.send_frame Events.close Events.on_exit Events.handle_line
step-Tracks i (Events.requests m p t) c = start_request-Tracks i c m p t
step-Tracks i Events.takes_id c = λ a s t. record {
  balance = omega (arith, t.balance);
  once = omega (arith, t.once);
  fresh = λ l. omega (arith, t.fresh (omega arith));
  closed = t.closed;
}
step-Tracks i (Events.notifies_server m p) c =
    Same-Tracks i c (Events.step (Events.notifies_server m p) c)
      (record { ids = ground arith; table = ground arith; over = ground arith }) (ground arith)
      (ground arith)
step-Tracks i (Events.replies_late id v) c =
    Same-Tracks i c (Events.step (Events.replies_late id v) c)
      (record { ids = ground arith; table = ground arith; over = ground arith }) (ground arith)
      (ground arith)
step-Tracks i (Events.subscribes h) c =
    Same-Tracks i c (Events.step (Events.subscribes h) c)
      (record { ids = refl; table = refl; over = refl }) refl refl
step-Tracks i (Events.subscribes_exit h) c =
    Same-Tracks i c (Events.step (Events.subscribes_exit h) c)
      (record { ids = ground arith; table = ground arith; over = ground arith }) (ground arith)
      (ground arith)
step-Tracks i (Events.unsubscribes h) c =
    Same-Tracks i c (Events.step (Events.unsubscribes h) c)
      (record { ids = refl; table = refl; over = refl }) refl refl
step-Tracks i (Events.unsubscribes_exit h) c =
    Same-Tracks i c (Events.step (Events.unsubscribes_exit h) c)
      (record { ids = refl; table = refl; over = refl }) refl refl
step-Tracks i (Events.registers m) c =
    Same-Tracks i c (Events.step (Events.registers m) c)
      (record { ids = refl; table = refl; over = refl }) refl refl
step-Tracks i (Events.closes t) c =
    Same-Tracks i c (Events.step (Events.closes t) c)
      (record { ids = ground arith; table = ground arith; over = ground arith }) (ground arith)
      (ground arith)
step-Tracks i (Events.written k) c =
    Same-Tracks i c (Events.step (Events.written k) c)
      (record { ids = refl; table = refl; over = refl }) refl refl
step-Tracks i (Events.write_failed k b) c = on_write_failed-Tracks i k b c
step-Tracks i (Events.timeout k) c = on_timeout-Tracks i k c
step-Tracks i (Events.line l) c = elim (Bool-cases (is_some c.finished)) [
  | inl e ↦
      rw e (Same-Tracks i c (c, []) (record { ids = refl; table = refl; over = refl }) refl refl)
  | inr e ↦ rw e (handle_frame-Tracks i l c)
]
step-Tracks i (Events.handler_holds n) c = hold-Tracks i n c
step-Tracks i (Events.handler_settles n x) c = settle_handler-Tracks i n x c
step-Tracks i (Events.ended info tail) c = finish-Tracks i info tail c

run-Tracks : (i : ℕ) (es : List Events.Event) (c : Client) → Tracks i c (Events.run es c)
unfolding Events.run
run-Tracks i [] c =
    Same-Tracks i c (c, []) (record { ids = refl; table = refl; over = refl }) refl refl
run-Tracks i (e ∷ es) c =
    let (c1, fs) = Events.step e c in
    chain i c c1 (Events.run es c1).0 fs (Events.run es c1).1 (step-Tracks i e c)
      (run-Tracks i es c1)

new_client-Tracked : (i last ms : ℕ) → Tracked i (new_client last ms) 0 0
unfolding new_client
new_client-Tracked i last ms = record {
  balance = refl;
  once = omega arith;
  fresh = λ l. refl;
  closed = λ h. refl;
}

-- In every run of a new client, the frame of a request goes out once at most under an id; a request
-- that was sent either still waits or has been settled, and that once; none that was not sent is
-- settled; and once the channel has ended every request that was sent has been settled.
pub run-requests :
    (last ms i : ℕ) (es : List Events.Event)
    → let (c, fs) = Events.run es (new_client last ms) in
      (sent i fs ≤ 1)
      × (settled i fs + entries_of i c.pending ≡ sent i fs)
      × (is_some c.finished ≡ true → settled i fs ≡ sent i fs)
run-requests last ms i es =
    let t = run-Tracks i es (new_client last ms) 0 0 (new_client-Tracked i last ms) in
    (
      omega (arith, t.once),
      omega (arith, t.balance),
      λ h. omega (arith, t.balance, ap (entries_of i) (t.closed h)),
    )
