-- ===== src/Transport/Rpc/Settled.antt =====
-- Every request of a `JsonRpcClient` is settled exactly once, and all are once its channel has ended.
pub mod Runs
use uber_coder.Prelude.{
  ℕ, zero, suc, ◌+◌, ◌≤◌, ◌<◌, ◌≡◌, refl, ap, ◌∙◌, sym, Bool, true, false, not, Option, none, some,
  List, [], ◌∷◌, ◌++◌, map, filter, arith, is_some, ◌⊎◌, inl, inr, ◌==◌, ==_iff, if◌then◌else◌,
  Text, Bool-cases, Option-cases, ltb,
}
use uber_coder.Transport.Rpc.State.{
  Client, Pending, Effect, Outcome, Exit, RpcId, natural, request, writes, settles, exit_error, get,
  delete, TransportExit, new_client, tells_exit, notifies, reports_run, timeout_error, unmatched,
  fails_written,
}
use uber_coder.Transport.Rpc.Requests.{
  Response, start_request, on_timeout, on_write_failed, end_run, take_response, settle_response,
  pending_of, handle_response, reject_all, finish, answered, failed,
}
use uber_coder.Transport.Rpc.Server.{handle_server_request, refusal, hold, settle_handler, Settled}
use uber_coder.Transport.Rpc.Events
use uber_coder.Transport.Rpc.Counts.{
  one_if, sent, settled, entries_of, sent-append, settled-append, entries_of-delete_same,
  entries_of-delete_other, entries_of-get, Tracked, Tracks, Same-Tracks,
}

pub start_request-Tracks :
    (i : ℕ) (c : Client) (method : Text) (params : Option Text) (ms : Option ℕ)
    → Tracks i c (start_request method params ms c)
unfolding start_request
start_request-Tracks i c method params ms a s t = elim (Bool-cases (is_some c.finished)) [
  | inl e ↦ rw e (record {
    balance = omega (arith, t.balance);
    once = omega (arith, t.once);
    fresh = λ l. omega (arith, t.fresh l);
    closed = λ h. t.closed e;
  })
  | inr e ↦ rw e (record {
    balance = omega (arith, t.balance);
    once = ground (arith, t.once, t.fresh);
    fresh = λ l. ground (arith, t.fresh);
    closed = λ h. cc;
  })
]

-- A step that settles the request `k` and takes it from the table.
pub settle-Tracks :
    (i k : ℕ) (c c' : Client) (es : List Effect)
    → is_some (get k c.pending) ≡ true
    → c'.pending ≡ delete k c.pending
    → c'.last_id ≡ c.last_id
    → c'.finished ≡ c.finished
    → sent i es ≡ 0
    → settled i es ≡ one_if (k == i)
    → Tracks i c (c', es)
settle-Tracks i k c c' es g p l f e d a s t = record {
  balance = elim (Bool-cases (k == i)) [
    | inl q ↦ same ((==_iff k i).0 q)
    | inr q ↦
        ground (arith, t.balance, ap (entries_of i) p, entries_of-delete_other i k c.pending q)
  ];
  once = omega (arith, t.once, e);
  fresh = λ m. omega (arith, t.fresh (omega (arith, l)), e);
  closed = λ h. absurd (no_entry (t.closed (sym (ap is_some f) ∙ h)));
}
  where
    same : k ≡ i → s + settled i es + entries_of i c'.pending ≡ a + sent i es
    same q = omega (
      arith,
      t.balance,
      t.once,
      e,
      d,
      ap (entries_of i) p,
      entries_of-delete_same i c.pending,
      ap (λ x. entries_of i (delete x c.pending)) q,
      entries_of-get k c.pending g,
      ap (λ x. entries_of x c.pending) q,
      ap (λ x. one_if (x == i)) q,
      ap one_if ((==_iff i i).1 refl),
    )

    no_entry : c.pending ≡ [] → ⊥
    no_entry n = absurd (ground (arith, ap (entries_of k) n, entries_of-get k c.pending g))

-- `on_timeout` for an entry.
abbrev timer_result : ℕ → Pending → Client → Client × List Effect
timer_result id entry c =
    if ltb 0 entry.timeout_ms
    then (
      record c { pending = delete id c.pending; timeout_run = c.timeout_run + 1 },
      settles id (timeout_error entry.method entry.timeout_ms)
          ∷ reports_run (c.timeout_run + 1) (some entry.method)
          ∷ [],
    )
    else (c, [])

pub on_timeout-Tracks : (i k : ℕ) (c : Client) → Tracks i c (on_timeout k c)
unfolding on_timeout
on_timeout-Tracks i k c = elim (Option-cases (get k c.pending)) [
  | inl e ↦
      rw (e, on_timeout)
        (Same-Tracks i c (c, []) (record { ids = refl; table = refl; over = refl }) refl refl)
  | inr (x, e) ↦ rw (e, on_timeout) (timed x e)
]
  where
    timed : (x : Pending) → get k c.pending ≡ some x → Tracks i c (timer_result k x c)
    timed x e = elim (Bool-cases (ltb 0 x.timeout_ms)) [
      | inl t ↦ rw t (
          settle-Tracks i k c
            (record c { pending = delete k c.pending; timeout_run = c.timeout_run + 1 })
            (settles k (timeout_error x.method x.timeout_ms)
              ∷ reports_run (c.timeout_run + 1) (some x.method)
              ∷ [])
            (ap is_some e) refl refl refl refl (omega arith))
      | inr t ↦
          rw t
            (Same-Tracks i c (c, []) (record { ids = refl; table = refl; over = refl }) refl refl)
    ]

pub on_write_failed-Tracks : (i k : ℕ) (b : Bool) (c : Client) → Tracks i c (on_write_failed k b c)
unfolding on_write_failed
on_write_failed-Tracks i k false c =
    Same-Tracks i c (c, fails_written k ∷ []) (record { ids = refl; table = refl; over = refl })
      refl refl
on_write_failed-Tracks i k true c = elim (Bool-cases (is_some (get k c.pending))) [
  | inl e ↦ rw e (
      settle-Tracks i k c (record c { pending = delete k c.pending })
        (fails_written k ∷ settles k (exit_error false) ∷ []) e refl refl refl refl (omega arith))
  | inr e ↦ rw e (
      Same-Tracks i c (c, fails_written k ∷ []) (record { ids = refl; table = refl; over = refl })
        refl refl)
]

sent-reject_all : (i : ℕ) (ps : List (ℕ × Pending)) → sent i (reject_all ps) ≡ 0
unfolding reject_all
sent-reject_all i [] = refl
sent-reject_all i (p ∷ ps) = omega (arith, sent-reject_all i ps)

settled-reject_all : (i : ℕ) (ps : List (ℕ × Pending)) → settled i (reject_all ps) ≡ entries_of i ps
unfolding reject_all
settled-reject_all i [] = refl
settled-reject_all i (p ∷ ps) = omega (arith, settled-reject_all i ps)

tells-none :
    (i : ℕ) (x : Exit) (hs : List ℕ)
    → (sent i (map (λ h. tells_exit h x) hs) ≡ 0) × (settled i (map (λ h. tells_exit h x) hs) ≡ 0)
tells-none i x [] = (refl, refl)
tells-none i x (h ∷ hs) = let (p, q) = tells-none i x hs in (omega (arith, p), omega (arith, q))

pub notifies-none :
    (i : ℕ) (m : Text) (v : Option Text) (hs : List ℕ)
    → (sent i (map (λ h. notifies h m v) hs) ≡ 0) × (settled i (map (λ h. notifies h m v) hs) ≡ 0)
notifies-none i m v [] = (refl, refl)
notifies-none i m v (h ∷ hs) =
    let (p, q) = notifies-none i m v hs in (omega (arith, p), omega (arith, q))

pub finish-Tracks :
    (i : ℕ) (info : TransportExit) (tail : Text) (c : Client) → Tracks i c (finish info tail c)
unfolding finish
finish-Tracks i info tail c a s t = elim (Bool-cases (is_some c.finished)) [
  | inl e ↦
      rw e
        (Same-Tracks i c (c, []) (record { ids = refl; table = refl; over = refl }) refl refl a s t)
  | inr e ↦ rw e (ends)
]
  where
    exit : Exit
    exit = record { info = info; expected = c.closing; stderr_tail = tail }

    all : List Effect
    all = reject_all c.pending ++ map (λ h. tells_exit h exit) c.exit_handlers

    ends :
        Tracked i
          (record c {
            finished = some exit;
            pending = [];
            exit_handlers = [];
            notification_handlers = [];
          })
          (a + sent i all)
          (s + settled i all)
    ends = record {
      balance = omega (
        arith,
        t.balance,
        sent-append i (reject_all c.pending) (map (λ h. tells_exit h exit) c.exit_handlers),
        settled-append i (reject_all c.pending) (map (λ h. tells_exit h exit) c.exit_handlers),
        sent-reject_all i c.pending,
        settled-reject_all i c.pending,
        tells-none i exit c.exit_handlers,
      );
      once = omega (
        arith,
        t.once,
        sent-append i (reject_all c.pending) (map (λ h. tells_exit h exit) c.exit_handlers),
        sent-reject_all i c.pending,
        tells-none i exit c.exit_handlers,
      );
      fresh = λ l. omega (
        arith,
        t.fresh l,
        sent-append i (reject_all c.pending) (map (λ h. tells_exit h exit) c.exit_handlers),
        sent-reject_all i c.pending,
        tells-none i exit c.exit_handlers,
      );
      closed = λ h. refl;
    }
