-- ===== src/Transport/Channel/Promises.antt =====
-- The promises of a channel's calls: each is settled at most once, so no event goes to a call that has
-- had its answer.
use uber_coder.Prelude.{
  ℕ, ◌+◌, ◌≤◌, ◌≡◌, refl, Bool, true, false, ◌||◌, Option, none, some, List, [], ◌∷◌, ◌++◌, ◌==◌,
  arith, Bool-cases, inl, inr,
}
use uber_coder.Transport.Channel.{
  TransportEvent, EventChannel, ChannelEffect, resolves, throws, new_channel, hand_over, push_event,
  claim, next_of, next_event, return_of, ChannelCall, pushes, claims, takes, returns, call, calls,
}
use uber_coder.Transport.Channel.Order.{delivered, accepted, calls-Flows, Waits, Waits-none}

abbrev one_if : Bool → ℕ
one_if true = 1
one_if false = 0

abbrev settled_in : ℕ → ChannelEffect → ℕ
settled_in n (resolves m o) = one_if (m == n)
settled_in n throws = 0

-- How often the promise of call `n` is settled.
abbrev pub settled : ℕ → List ChannelEffect → ℕ
settled n [] = 0
settled n (x ∷ xs) = settled_in n x + settled n xs

-- The call that waits, and the calls with a promise.
abbrev pub waiting : ℕ → Option ℕ → ℕ
waiting n none = 0
waiting n (some m) = one_if (m == n)

abbrev asked_in : ℕ → ChannelCall → ℕ
asked_in n (takes m) = one_if (m == n)
asked_in n (returns m) = one_if (m == n)
asked_in n (pushes e) = 0
asked_in n claims = 0

abbrev pub asked : ℕ → List ChannelCall → ℕ
asked n [] = 0
asked n (k ∷ ks) = asked_in n k + asked n ks

settled-append :
    (n : ℕ) (xs ys : List ChannelEffect) → settled n (xs ++ ys) ≡ settled n xs + settled n ys
settled-append n [] ys = omega arith
settled-append n (x ∷ xs) ys = omega (arith, settled-append n xs ys)

-- What a step settles and leaves waiting was asked for, or waited before.
abbrev Spares : ℕ → ℕ → EventChannel → EventChannel × List ChannelEffect → Type 0
Spares n a c r = settled n r.1 + waiting n r.0.waiter ≤ a + waiting n c.waiter

hand_over-Spares :
    (n : ℕ) (w : Option ℕ) (e : TransportEvent) (b : Bool) (c : EventChannel)
    → c.waiter ≡ w
    → Spares n 0 c (hand_over w e (record c { ended = b }))
unfolding hand_over
hand_over-Spares n none e b c h = omega arith
hand_over-Spares n (some m) e b c h = rw h (omega arith)

next_of-Spares :
    (n m : ℕ) (q : List TransportEvent) (c : EventChannel)
    → Spares n (one_if (m == n)) c (next_of m q c)
unfolding next_of
next_of-Spares n m (e ∷ es) c = omega arith
next_of-Spares n m [] c = elim (Bool-cases (c.ended || c.abandoned)) [
  | inl h ↦ rw h (omega arith)
  | inr h ↦ rw h (omega arith)
]

return_of-Spares :
    (n m : ℕ) (w : Option ℕ) (c : EventChannel)
    → c.waiter ≡ w
    → Spares n (one_if (m == n)) c (return_of m w c)
unfolding return_of
return_of-Spares n m none c h = omega arith
return_of-Spares n m (some w) c h = rw h (omega arith)

call-Spares : (n : ℕ) (k : ChannelCall) (c : EventChannel) → Spares n (asked_in n k) c (call k c)
unfolding call push_event claim next_event
call-Spares n (pushes e) c = elim (Bool-cases (c.ended || c.abandoned)) [
  | inl h ↦ rw (h, call, push_event) (omega arith)
  | inr h ↦ rw (h, call, push_event) (hand_over-Spares n c.waiter e e.is_stopped c refl)
]
call-Spares n claims c = elim (Bool-cases c.claimed) [
  | inl h ↦ rw h (omega arith)
  | inr h ↦ rw h (omega arith)
]
call-Spares n (takes m) c = next_of-Spares n m c.queue c
call-Spares n (returns m) c = return_of-Spares n m c.waiter c refl

calls-Spares :
    (n : ℕ) (ks : List ChannelCall) (c : EventChannel) → Spares n (asked n ks) c (calls ks c)
unfolding calls
calls-Spares n [] c = omega arith
calls-Spares n (k ∷ ks) c = omega (
  arith,
  settled-append n (call k c).1 (calls ks (call k c).0).1,
  call-Spares n k c,
  calls-Spares n ks (call k c).0,
)

hand_over-Waits :
    (w : Option ℕ) (e : TransportEvent) (b : Bool) (c : EventChannel)
    → c.waiter ≡ w
    → Waits
        (hand_over w e (record c { ended = b })).0.waiter
        (hand_over w e (record c { ended = b })).0.queue
unfolding hand_over
hand_over-Waits none e b c h = Waits-none c.waiter (c.queue ++ e ∷ []) h
hand_over-Waits (some m) e b c h = tt

next_of-Waits :
    (n : ℕ) (q : List TransportEvent) (c : EventChannel)
    → c.queue ≡ q
    → Waits c.waiter c.queue
    → Waits (next_of n q c).0.waiter (next_of n q c).0.queue
unfolding next_of
next_of-Waits n (e ∷ es) c p v = idle c.waiter v
  where
    idle : (w : Option ℕ) → Waits w c.queue → Waits w es
    idle none u = tt
    idle (some m) u = absurd (cc)
next_of-Waits n [] c p v = elim (Bool-cases (c.ended || c.abandoned)) [
  | inl h ↦ rw h v
  | inr h ↦ rw h p
]

call-Waits :
    (k : ChannelCall) (c : EventChannel)
    → Waits c.waiter c.queue
    → Waits (call k c).0.waiter (call k c).0.queue
unfolding call push_event claim next_event
call-Waits (pushes e) c v = elim (Bool-cases (c.ended || c.abandoned)) [
  | inl h ↦ rw (h, call, push_event) v
  | inr h ↦ rw (h, call, push_event) (hand_over-Waits c.waiter e e.is_stopped c refl)
]
call-Waits claims c v = elim (Bool-cases c.claimed) [ inl h ↦ rw h v | inr h ↦ rw h v ]
call-Waits (takes m) c v = next_of-Waits m c.queue c refl v
call-Waits (returns m) c v = by_waiter c.waiter
  where
    by_waiter : (w : Option ℕ) → Waits (return_of m w c).0.waiter (return_of m w c).0.queue
    by_waiter none = unfold return_of in tt
    by_waiter (some w) = unfold return_of in tt

calls-Waits :
    (ks : List ChannelCall) (c : EventChannel)
    → Waits c.waiter c.queue
    → Waits (calls ks c).0.waiter (calls ks c).0.queue
unfolding calls
calls-Waits [] c v = v
calls-Waits (k ∷ ks) c v = calls-Waits ks (call k c).0 (call-Waits k c v)

-- In every run of a new channel the events that the consumer was given, those that wait in the
-- queue, and some that were dropped, are in this order the events that the channel accepted: those
-- pushed before the consumer left, up to the first that stops the session. Nothing is dropped unless
-- the consumer left. And each was given to a call of its own: the promise of call `n` is settled, or
-- still waits, at most as often as `n` was called. A call waits only while no event does.
pub calls-delivered :
    (ks : List ChannelCall)
    → let (c, xs) = calls ks new_channel in
      ((lost : List TransportEvent) × (delivered xs ++ (c.queue ++ lost) ≡ accepted false ks)
        × (c.abandoned ≡ false → lost ≡ []))
      × ((n : ℕ) → settled n xs + waiting n c.waiter ≤ asked n ks)
      × Waits c.waiter c.queue
unfolding new_channel
calls-delivered ks =
    let f = calls-Flows ks new_channel tt in
    (
      (f.lost, f.flow, f.kept),
      λ n. omega (arith, calls-Spares n ks new_channel),
      calls-Waits ks new_channel tt,
    )
