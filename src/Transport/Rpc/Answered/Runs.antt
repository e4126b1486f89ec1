-- ===== src/Transport/Rpc/Answered/Runs.antt =====
-- Every frame, and every event, keeps the account of the server's requests.
use uber_coder.Prelude.{
  ℕ, ◌+◌, ◌≤◌, ◌≡◌, refl, ap, Option, none, some, List, [], ◌∷◌, map, arith, is_some, inl, inr,
  ◌==◌, ==_iff, Text, Bool-cases, Option-cases,
}
use uber_coder.Transport.Rpc.State.{
  Client, ServerRequest, Pending, Exit, RpcId, get, delete, new_client, tells_exit, notifies,
  TransportExit, max_concurrent_server_request_handlers,
}
use uber_coder.Transport.Rpc.Requests.{
  Response, start_request, on_timeout, on_write_failed, end_run, take_response, settle_response,
  handle_response, reject_all, finish, pending_of, answered, failed,
}
use uber_coder.Transport.Rpc.Server.{hold, settle_handler, released, uncount, Settled}
use uber_coder.Transport.Rpc.Counts.{
  one_if, entries_of, entries_of-delete_same, entries_of-delete_other, entries_of-get,
}
use uber_coder.Transport.Rpc.Events
use uber_coder.Transport.Rpc.Answered.{
  answer_count, counted_requests, within, Serves, IsCounted, Serving, Serving-same, Serving-chain,
  handle_server_request-Serving, uncount-entries, uncount-counted, delete-counted,
  answer_count-append,
}

hold-Serving : (k n : ℕ) (c : Client) → Serving k c (hold n c)
unfolding hold released
hold-Serving k n c v = elim (Option-cases (get n c.unanswered)) [
  | inl e ↦ rw (e, hold) (v, λ a s. record { balance = omega (arith, s.balance) })
  | inr (o, e) ↦
      rw (e, hold)
        (
          record {
            single = λ i. omega (arith, v.single i, uncount-entries i n c.unanswered);
            active = freed o e;
            bounded = ground (arith, v.bounded);
          },
          λ a s. record { balance = omega (arith, s.balance, uncount-entries k n c.unanswered) },
        )
]
  where
    freed :
        (o : ServerRequest)
        → get n c.unanswered ≡ some o
        → released o c.active_server_requests ≡ counted_requests (uncount n c.unanswered)
    freed o e = ground (arith, v.active, v.single n, uncount-counted n c.unanswered o e)

within-one : (k n : ℕ) → within k n ≤ 1
within-one k n = ground arith

settle_handler-Serving : (k n : ℕ) (x : Settled) (c : Client) → Serving k c (settle_handler n x c)
unfolding settle_handler released
settle_handler-Serving k n x c v = elim (Option-cases (get n c.unanswered)) [
  | inl e ↦ rw (e, settle_handler) (v, λ a s. record { balance = omega (arith, s.balance) })
  | inr (o, e) ↦
      rw (e, settle_handler)
        (
          record {
            single = λ i. left i e;
            active = freed o e;
            bounded = ground (arith, v.bounded);
          },
          λ a s. record { balance = told a o e s },
        )
]
  where
    left :
        (i : ℕ) {o : ServerRequest}
        → get n c.unanswered ≡ some o
        → entries_of i (delete n c.unanswered) ≤ within i c.server_requests
    left i e = elim (Bool-cases (n == i)) [
      | inl q ↦ ground (
        arith,
        entries_of-delete_same i c.unanswered,
        ap (λ j. entries_of i (delete j c.unanswered)) ((==_iff n i).0 q),
      )
      | inr q ↦ omega (arith, v.single i, entries_of-delete_other i n c.unanswered q)
    ]

    freed :
        (o : ServerRequest)
        → get n c.unanswered ≡ some o
        → released o c.active_server_requests ≡ counted_requests (delete n c.unanswered)
    freed o e = ground (arith, v.active, v.single n, delete-counted n c.unanswered o e)

    told :
        (a : ℕ) (o : ServerRequest)
        → get n c.unanswered ≡ some o
        → Serves k c a
        → a + (one_if (n == k) + 0) + entries_of k (delete n c.unanswered)
          ≡ within k c.server_requests
    told a o e s = elim (Bool-cases (n == k)) [
      | inl q ↦ omega (
        arith,
        s.balance,
        v.single k,
        within-one k c.server_requests,
        ap one_if q,
        entries_of-delete_same k c.unanswered,
        ap (λ j. entries_of k (delete j c.unanswered)) ((==_iff n k).0 q),
        entries_of-get n c.unanswered (ap is_some e),
        ap (λ j. entries_of j c.unanswered) ((==_iff n k).0 q),
      )
      | inr q ↦ omega (arith, s.balance, ap one_if q, entries_of-delete_other k n c.unanswered q)
    ]

-- No answer to the server among these.
unanswering : (k : ℕ) (ps : List (ℕ × Pending)) → answer_count k (reject_all ps) ≡ 0
unfolding reject_all
unanswering k [] = refl
unanswering k (p ∷ ps) = omega (arith, unanswering k ps)

tells-unanswering :
    (k : ℕ) (x : Exit) (hs : List ℕ) → answer_count k (map (λ h. tells_exit h x) hs) ≡ 0
tells-unanswering k x [] = refl
tells-unanswering k x (h ∷ hs) = omega (arith, tells-unanswering k x hs)

notifies-unanswering :
    (k : ℕ) (m : Text) (v : Option Text) (hs : List ℕ)
    → answer_count k (map (λ h. notifies h m v) hs) ≡ 0
notifies-unanswering k m v [] = refl
notifies-unanswering k m v (h ∷ hs) = omega (arith, notifies-unanswering k m v hs)

finish-Serving :
    (k : ℕ) (info : TransportExit) (tail : Text) (c : Client) → Serving k c (finish info tail c)
unfolding finish
finish-Serving k info tail c =
    Serving-same k c (finish info tail c) (ground arith) (ground arith) (ground arith)
      (elim (Bool-cases (is_some c.finished)) [
        | inl e ↦ rw (e, finish) refl
        | inr e ↦
            rw (e, finish)
              (omega (
                arith,
                answer_count-append k (reject_all c.pending)
                    (map (λ h. tells_exit h exit) c.exit_handlers),
                unanswering k c.pending,
                tells-unanswering k exit c.exit_handlers,
              ))
      ])
  where
    exit : Exit
    exit = record { info = info; expected = c.closing; stderr_tail = tail }

end_run-Serving : (k : ℕ) (m : Option Text) (c : Client) → Serving k c (end_run m c)
unfolding end_run
end_run-Serving k m c =
    Serving-same k c (end_run m c) (ground arith) (ground arith) (ground arith) (ground arith)

settle_response-unanswering :
    (k n : ℕ) (x : Pending) (r : Response) → answer_count k (settle_response n x r) ≡ 0
unfolding settle_response
settle_response-unanswering k n x (failed p) = refl
settle_response-unanswering k n x (answered v) = refl

take_response-Serving :
    (k : ℕ) (id : RpcId) (r : Response) (o : Option (ℕ × Pending)) (c : Client)
    → Serving k c (take_response id r o c)
unfolding take_response
take_response-Serving k id r none c =
    Serving-same k c (take_response id r none c) refl refl refl refl
take_response-Serving k id r (some (n, x)) c =
    Serving-same k c (take_response id r (some (n, x)) c) refl refl refl
      (settle_response-unanswering k n x r)

handle_response-Serving :
    (k : ℕ) (id : RpcId) (r : Response) (c : Client) → Serving k c (handle_response id r c)
unfolding handle_response
handle_response-Serving k id r c =
    let o = pending_of id c in
    let m : Option Text = elim o [ none ↦ none | some (n, entry) ↦ some entry.method ] in
    let (c1, es) = end_run m c in
    Serving-chain k c c1 (take_response id r o c1).0 es (take_response id r o c1).1
      (end_run-Serving k m c) (take_response-Serving k id r o c1)

unroutable-Serving : (k : ℕ) (c : Client) → Serving k c (Events.unroutable c)
unfolding Events.unroutable
unroutable-Serving k c = Serving-same k c (Events.unroutable c) refl refl refl refl

handle_call-Serving :
    (k : ℕ) (m : Text) (f : Events.IdField) (v : Option Text) (c : Client)
    → Serving k c (Events.handle_call m f v c)
unfolding Events.handle_call
handle_call-Serving k m Events.missing v c =
    Serving-same k c (Events.handle_call m Events.missing v c) refl refl refl
      (notifies-unanswering k m v c.notification_handlers)
handle_call-Serving k m Events.invalid v c = unroutable-Serving k c
handle_call-Serving k m (Events.valid id) v c = handle_server_request-Serving k id m c

handle_frame-Serving :
    (k : ℕ) (l : Events.Line) (c : Client) → Serving k c (Events.handle_frame l c)
unfolding Events.handle_frame
handle_frame-Serving k Events.blank c = Serving-same k c (c, []) refl refl refl refl
handle_frame-Serving k Events.not_json c =
    Serving-same k c (Events.handle_frame Events.not_json c) refl refl refl refl
handle_frame-Serving k Events.not_record c = unroutable-Serving k c
handle_frame-Serving k (Events.call m f v) c =
    let (c1, es) = end_run (some m) c in
    Serving-chain k c c1 (Events.handle_call m f v c1).0 es (Events.handle_call m f v c1).1
      (end_run-Serving k (some m) c) (handle_call-Serving k m f v c1)
handle_frame-Serving k (Events.reply (Events.valid id) (some r)) c =
    handle_response-Serving k id r c
handle_frame-Serving k (Events.reply (Events.valid id) none) c = unroutable-Serving k c
handle_frame-Serving k (Events.reply Events.missing r) c = unroutable-Serving k c
handle_frame-Serving k (Events.reply Events.invalid r) c = unroutable-Serving k c

-- The events that touch no request of the server.
abbrev IsOther : Events.Event → Type 0
IsOther (Events.line l) = ⊥
IsOther (Events.handler_holds n) = ⊥
IsOther (Events.handler_settles n x) = ⊥
IsOther (Events.ended info tail) = ⊥
IsOther (Events.requests m p t) = Unit
IsOther _ = Unit

other-Serving : (k : ℕ) (e : Events.Event) (c : Client) → IsOther e → Serving k c (Events.step e c)
unfolding Events.step Events.send_frame Events.close Events.on_exit start_request on_timeout
    on_write_failed
other-Serving k e c p =
    Serving-same k c (Events.step e c) (ground arith) (ground arith) (ground arith) (ground arith)

step-Serving : (k : ℕ) (e : Events.Event) (c : Client) → Serving k c (Events.step e c)
unfolding Events.step Events.handle_line
step-Serving k (Events.line l) c = elim (Bool-cases (is_some c.finished)) [
  | inl e ↦ rw e (Serving-same k c (c, []) refl refl refl refl)
  | inr e ↦ rw e (handle_frame-Serving k l c)
]
step-Serving k (Events.handler_holds n) c = hold-Serving k n c
step-Serving k (Events.handler_settles n x) c = settle_handler-Serving k n x c
step-Serving k (Events.ended info tail) c = finish-Serving k info tail c
step-Serving k e c = other-Serving k e c tt

run-Serving : (k : ℕ) (es : List Events.Event) (c : Client) → Serving k c (Events.run es c)
unfolding Events.run
run-Serving k [] c = Serving-same k c (c, []) refl refl refl refl
run-Serving k (e ∷ es) c =
    let (c1, fs) = Events.step e c in
    Serving-chain k c c1 (Events.run es c1).0 fs (Events.run es c1).1 (step-Serving k e c)
      (run-Serving k es c1)

new_client-IsCounted : (last ms : ℕ) → IsCounted (new_client last ms)
unfolding new_client
new_client-IsCounted last ms = record {
  single = λ k. ground arith;
  active = refl;
  bounded = omega arith;
}

-- In every run of a new client, each request of the server, by its number in their order, either is
-- answered, and that once, or a handler still has it; none that has not come is answered; and the
-- requests that count against the limit on handlers are never more than it.
pub run-server_requests :
    (last ms k : ℕ) (es : List Events.Event)
    → let (c, fs) = Events.run es (new_client last ms) in
      (answer_count k fs + entries_of k c.unanswered ≡ within k c.server_requests)
      × (counted_requests c.unanswered ≤ max_concurrent_server_request_handlers)
unfolding new_client
run-server_requests last ms k es =
    let (v, s) = run-Serving k es (new_client last ms) (new_client-IsCounted last ms) in
    (omega (arith, (s 0 (new_client-Serves k last ms)).balance), omega (arith, v.active, v.bounded))
  where
    new_client-Serves : (k last ms : ℕ) → Serves k (new_client last ms) 0
    new_client-Serves k last ms = record { balance = ground arith }
