-- ===== src/Transport/Rpc/Answered.antt =====
-- Every request of the server to a `JsonRpcClient` is answered once, and the handlers that count
-- against the limit never exceed it.
pub mod Runs
use uber_coder.Prelude.{
  same_text, ℕ, zero, suc, ◌+◌, ◌-◌, ◌≤◌, ◌<◌, ◌≡◌, refl, ap, ◌∙◌, sym, Bool, true, false, not,
  Option, none, some, List, [], ◌∷◌, ◌++◌, map, filter, arith, is_some, ◌⊎◌, inl, inr, ◌==◌, ==_iff,
  if◌then◌else◌, Text, Bool-cases, Option-cases, ltb, leb, any,
}
use uber_coder.Transport.Rpc.State.{
  Client, ServerRequest, Pending, Effect, Exit, RpcId, answers, get, delete, new_client, tells_exit,
  notifies, TransportExit, max_concurrent_server_request_handlers,
}
use uber_coder.Transport.Rpc.Requests.{
  Response, start_request, on_timeout, on_write_failed, end_run, take_response, settle_response,
  handle_response, reject_all, finish, pending_of, answered, failed,
}
use uber_coder.Transport.Rpc.Server.{
  handle_server_request, refusal, hold, settle_handler, released, uncount, Settled,
}
use uber_coder.Transport.Rpc.Counts.{
  one_if, entries_of, entries_of-delete_same, entries_of-delete_other, entries_of-get,
}
use uber_coder.Transport.Rpc.Events

-- Answers to the server's request of this number.
abbrev pub answer_in : ℕ → Effect → ℕ
answer_in k (answers n f) = one_if (n == k)
answer_in k _ = 0

abbrev pub answer_count : ℕ → List Effect → ℕ
answer_count k [] = 0
answer_count k (e ∷ es) = answer_in k e + answer_count k es

-- The open requests that count against the limit.
abbrev pub counted_requests : List (ℕ × ServerRequest) → ℕ
counted_requests [] = 0
counted_requests ((n, o) ∷ os) = one_if o.counted + counted_requests os

pub answer_count-append :
    (k : ℕ) (es fs : List Effect)
    → answer_count k (es ++ fs) ≡ answer_count k es + answer_count k fs
answer_count-append k [] fs = omega arith
answer_count-append k (e ∷ es) fs = omega (arith, answer_count-append k es fs)

-- The first `n` requests.
abbrev pub within : ℕ → ℕ → ℕ
within k n = if ltb 0 k then (if leb k n then 1 else 0) else 0

-- `a` answers to the request `k` so far.
pub record Serves (k : ℕ) (c : Client) (a : ℕ) : Type 0 where
  pub balance : a + entries_of k c.unanswered ≡ within k c.server_requests

-- Every number is used once, and the counter is true.
pub record IsCounted (c : Client) : Type 0 where
  pub single : (k : ℕ) → entries_of k c.unanswered ≤ within k c.server_requests
  pub active : c.active_server_requests ≡ counted_requests c.unanswered
  pub bounded : c.active_server_requests ≤ max_concurrent_server_request_handlers

abbrev pub Serving : ℕ → Client → Client × List Effect → Type 0
Serving k c r =
    IsCounted c → IsCounted r.0 × ((a : ℕ) → Serves k c a → Serves k r.0 (a + answer_count k r.1))

-- A step that touches no request of the server.
pub Serving-same :
    (k : ℕ) (c : Client) (r : Client × List Effect)
    → r.0.unanswered ≡ c.unanswered
    → r.0.server_requests ≡ c.server_requests
    → r.0.active_server_requests ≡ c.active_server_requests
    → answer_count k r.1 ≡ 0
    → Serving k c r
Serving-same k c r o n t e v = (
  record {
    single = λ i. omega (arith, v.single i, ap (entries_of i) o, ap (within i) n);
    active = omega (arith, v.active, t, ap counted_requests o);
    bounded = omega (arith, v.bounded, t);
  },
  λ a s. record { balance = omega (arith, s.balance, e, ap (entries_of k) o, ap (within k) n) },
)

pub Serving-chain :
    (k : ℕ) (c c1 c2 : Client) (es fs : List Effect)
    → Serving k c (c1, es)
    → Serving k c1 (c2, fs)
    → Serving k c (c2, es ++ fs)
Serving-chain k c c1 c2 es fs p q v =
    let (v1, s1) = p v in
    let (v2, s2) = q v1 in
    (
      v2,
      λ a s. record {
        balance =
            omega
              (arith, (s2 (a + answer_count k es) (s1 a s)).balance, answer_count-append k es fs);
      },
    )

pub handle_server_request-Serving :
    (k : ℕ) (id : RpcId) (m : Text) (c : Client) → Serving k c (handle_server_request id m c)
unfolding handle_server_request refusal
handle_server_request-Serving k id m c v =
    elim (Bool-cases (any (same_text m) c.request_handlers)) [
      | inr e ↦ rw e (
        record { single = λ i. ground (arith, v.single i); active = v.active; bounded = v.bounded },
        λ a s. record { balance = ground (arith, s.balance) },
      )
      | inl e ↦
          elim (Bool-cases (leb max_concurrent_server_request_handlers c.active_server_requests)) [
            | inl f ↦
                rw (e, f)
                  (
                    record {
                      single = λ i. ground (arith, v.single i);
                      active = v.active;
                      bounded = v.bounded;
                    },
                    λ a s. record { balance = ground (arith, s.balance) },
                  )
            | inr f ↦
                rw (e, f)
                  (
                    record {
                      single = λ i. ground (arith, v.single i);
                      active = omega (arith, v.active);
                      bounded = ground arith;
                    },
                    λ a s. record { balance = ground (arith, s.balance) },
                  )
          ]
    ]

pub uncount-entries :
    (i n : ℕ) (os : List (ℕ × ServerRequest)) → entries_of i (uncount n os) ≡ entries_of i os
uncount-entries i n [] = refl
uncount-entries i n (x ∷ os) = omega (arith, uncount-entries i n os)

pub uncount-counted :
    (n : ℕ) (os : List (ℕ × ServerRequest)) (o : ServerRequest)
    → get n os ≡ some o
    → entries_of n os ≤ 1
    → counted_requests (uncount n os) + one_if o.counted ≡ counted_requests os
uncount-counted n [] o e u = cc
uncount-counted n ((k, x) ∷ os) o e u = elim (Bool-cases (k == n)) [
  | inl q ↦ omega (arith, uncount-absent n os (ground (arith, u, q)), found q)
  | inr q ↦ ground (arith, uncount-counted n os o, e, u)
]
  where
    found :
        (k == n) ≡ true
        → one_if (if k == n then record x { counted = false } else x).counted + one_if o.counted
          ≡ one_if x.counted
    found q = ground (arith, e)

    uncount-absent :
        (n : ℕ) (os : List (ℕ × ServerRequest))
        → entries_of n os ≡ 0
        → counted_requests (uncount n os) ≡ counted_requests os
    uncount-absent n [] z = refl
    uncount-absent n ((k, x) ∷ os) z = ground (arith, uncount-absent n os)

pub delete-counted :
    (n : ℕ) (os : List (ℕ × ServerRequest)) (o : ServerRequest)
    → get n os ≡ some o
    → entries_of n os ≤ 1
    → counted_requests (delete n os) + one_if o.counted ≡ counted_requests os
delete-counted n [] o e u = cc
delete-counted n ((k, x) ∷ os) o e u = elim (Bool-cases (k == n)) [
  | inl q ↦ ground (arith, delete-absent n os, e, u)
  | inr q ↦ ground (arith, delete-counted n os o, e, u)
]
  where
    delete-absent :
        (n : ℕ) (os : List (ℕ × ServerRequest))
        → entries_of n os ≡ 0
        → counted_requests (delete n os) ≡ counted_requests os
    delete-absent n [] z = refl
    delete-absent n ((k, x) ∷ os) z = ground (arith, delete-absent n os)
