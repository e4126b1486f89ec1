-- ===== src/Transport/Channel/Order.antt =====
-- The consumer gets the events in their order, up to the first that stops the session.
use uber_coder.Prelude.{
  ℕ, ◌≡◌, refl, ap, sym, ◌∙◌, Bool, true, false, ◌||◌, Option, none, some, List, [], ◌∷◌, ◌++◌,
  arith, if◌then◌else◌, append_assoc, append-nil, Bool-cases, inl, inr, subst,
}
use uber_coder.Transport.Channel.{
  TransportEvent, EventChannel, ChannelEffect, resolves, throws, hand_over, push_event, claim,
  next_of, next_event, return_of, ChannelCall, pushes, claims, takes, returns, call, calls,
}

-- The events that reach the consumer.
abbrev pub delivered_in : ChannelEffect → List TransportEvent
delivered_in (resolves n (some e)) = e ∷ []
delivered_in (resolves n none) = []
delivered_in throws = []

abbrev pub delivered : List ChannelEffect → List TransportEvent
delivered [] = []
delivered (x ∷ xs) = delivered_in x ++ delivered xs

-- The events that a channel takes: none once it is closed, and none behind one that stops it.
abbrev pub accepted : Bool → List ChannelCall → List TransportEvent
accepted closed [] = []
accepted true (pushes e ∷ ks) = accepted true ks
accepted false (pushes e ∷ ks) = e ∷ accepted e.is_stopped ks
accepted closed (claims ∷ ks) = accepted closed ks
accepted closed (takes n ∷ ks) = accepted closed ks
accepted closed (returns n ∷ ks) = accepted true ks

delivered-append :
    (xs ys : List ChannelEffect) → delivered (xs ++ ys) ≡ delivered xs ++ delivered ys
delivered-append [] ys = refl
delivered-append (x ∷ xs) ys =
    ap (◌++◌ (delivered_in x)) (delivered-append xs ys)
    ∙ sym (append_assoc (delivered_in x) (delivered xs) (delivered ys))

-- A consumer that waits has taken all there was.
abbrev pub Waits : Option ℕ → List TransportEvent → Type 0
Waits none q = Unit
Waits (some n) q = q ≡ []

-- What a run does: the events that it delivers, those left, and those lost to a consumer that left,
-- are the ones before and the ones accepted.
pub record Flows (q : List TransportEvent) (r : EventChannel × List ChannelEffect) : Type 0 where
  pub lost : List TransportEvent
  pub flow : delivered r.1 ++ (r.0.queue ++ lost) ≡ q
  pub kept : r.0.abandoned ≡ false → lost ≡ []

abbrev pub Flowing : EventChannel → List ChannelCall → Type 0
Flowing c ks =
    Waits c.waiter c.queue → Flows (c.queue ++ accepted (c.ended || c.abandoned) ks) (calls ks c)

-- A call that delivers `es` and leaves the rest.
Flows-step :
    (q q' es : List TransportEvent) (xs : List ChannelEffect)
    (r : EventChannel × List ChannelEffect)
    → delivered xs ≡ es
    → es ++ q' ≡ q
    → Flows q' r
    → Flows q (r.0, xs ++ r.1)
Flows-step q q' es xs r d e f = record {
  lost = f.lost;
  flow =
      ap (λ t. t ++ (r.0.queue ++ f.lost)) (delivered-append xs r.1)
      ∙ append_assoc (delivered xs) (delivered r.1) (r.0.queue ++ f.lost)
      ∙ ap (◌++◌ (delivered xs)) f.flow
      ∙ ap (λ t. t ++ q') d
      ∙ e;
  kept = f.kept;
}

accepted_closed : (ks : List ChannelCall) → accepted true ks ≡ []
accepted_closed [] = refl
accepted_closed (pushes e ∷ ks) = accepted_closed ks
accepted_closed (claims ∷ ks) = accepted_closed ks
accepted_closed (takes n ∷ ks) = accepted_closed ks
accepted_closed (returns n ∷ ks) = accepted_closed ks

call-abandoned :
    (k : ChannelCall) (c : EventChannel) → c.abandoned ≡ true → (call k c).0.abandoned ≡ true
unfolding call push_event hand_over claim next_event next_of return_of
call-abandoned k c e = ground arith

calls-abandoned :
    (ks : List ChannelCall) (c : EventChannel)
    → c.abandoned ≡ true
    → (calls ks c).0.abandoned ≡ true
unfolding calls
calls-abandoned [] c e = e
calls-abandoned (k ∷ ks) c e = calls-abandoned ks (call k c).0 (call-abandoned k c e)

append-empty : (xs ys : List TransportEvent) → xs ++ ys ≡ [] → (xs ≡ []) × (ys ≡ [])
append-empty [] ys e = (refl, e)
append-empty (x ∷ xs) ys e = cc

-- One call, and the calls behind it.
abbrev after :
    List ChannelCall → EventChannel × List ChannelEffect → EventChannel × List ChannelEffect
after ks (c1, es) = let (c2, fs) = calls ks c1 in (c2, es ++ fs)

pub Waits-none : (w : Option ℕ) (q : List TransportEvent) → w ≡ none → Waits w q
Waits-none none q e = tt
Waits-none (some n) q e = cc

or_false : (a b : Bool) → b ≡ false → a || b ≡ a
or_false true b e = refl
or_false false b e = e

hand_over-Flows :
    (w : Option ℕ) (e : TransportEvent) (c : EventChannel) (ks : List ChannelCall)
    → ((d : EventChannel) → Flowing d ks)
    → c.waiter ≡ w
    → Waits w c.queue
    → c.abandoned ≡ false
    → Flows
        (c.queue ++ e ∷ accepted e.is_stopped ks)
        (after ks (hand_over w e (record c { ended = e.is_stopped })))
unfolding hand_over
hand_over-Flows (some n) e c ks ih q v a =
    let c1 : EventChannel = record c { ended = e.is_stopped; waiter = none } in
    Flows-step (c.queue ++ e ∷ accepted e.is_stopped ks)
      (c.queue ++ accepted (e.is_stopped || c.abandoned) ks) (e ∷ []) (resolves n (some e) ∷ [])
      (calls ks c1) refl (rw (v, or_false e.is_stopped c.abandoned a) refl) (ih c1 tt)
hand_over-Flows none e c ks ih q v a =
    let c1 : EventChannel = record c { ended = e.is_stopped; queue = c.queue ++ e ∷ [] } in
    Flows-step (c.queue ++ e ∷ accepted e.is_stopped ks)
      ((c.queue ++ e ∷ []) ++ accepted (e.is_stopped || c.abandoned) ks) [] [] (calls ks c1) refl
      (rw (or_false e.is_stopped c.abandoned a)
        (append_assoc c.queue (e ∷ []) (accepted e.is_stopped ks)))
      (ih c1 (Waits-none c.waiter (c.queue ++ e ∷ []) q))

push_event-Flows :
    (e : TransportEvent) (c : EventChannel) (ks : List ChannelCall)
    → ((d : EventChannel) → Flowing d ks)
    → Waits c.waiter c.queue
    → Flows
        (c.queue ++ accepted (c.ended || c.abandoned) (pushes e ∷ ks))
        (after ks (push_event e c))
unfolding push_event
push_event-Flows e c ks ih v = elim (Bool-cases (c.ended || c.abandoned)) [
  | inl h ↦ rw h (subst (λ b. Flows (c.queue ++ accepted b ks) (calls ks c)) h (ih c v))
  | inr h ↦ rw h (hand_over-Flows c.waiter e c ks ih refl v (ground (arith, h)))
]

next_of-Flows :
    (n : ℕ) (q : List TransportEvent) (c : EventChannel) (ks : List ChannelCall)
    → ((d : EventChannel) → Flowing d ks)
    → c.queue ≡ q
    → Waits c.waiter c.queue
    → Flows (c.queue ++ accepted (c.ended || c.abandoned) ks) (after ks (next_of n q c))
unfolding next_of
next_of-Flows n (e ∷ es) c ks ih p v =
    let c1 : EventChannel = record c { queue = es } in
    Flows-step (c.queue ++ accepted (c.ended || c.abandoned) ks)
      (es ++ accepted (c.ended || c.abandoned) ks) (e ∷ []) (resolves n (some e) ∷ []) (calls ks c1)
      refl (ap (λ t. t ++ accepted (c.ended || c.abandoned) ks) (sym p)) (ih c1 (idle c.waiter v))
  where
    idle : (w : Option ℕ) → Waits w c.queue → Waits w es
    idle none u = tt
    idle (some m) u = absurd (cc)
next_of-Flows n [] c ks ih p v = elim (Bool-cases (c.ended || c.abandoned)) [
  | inl h ↦
      rw (h, next_of)
        (subst
          (λ b. Flows (c.queue ++ accepted b ks) ((calls ks c).0, resolves n none ∷ (calls ks c).1))
          h
          (Flows-step (c.queue ++ accepted (c.ended || c.abandoned) ks)
            (c.queue ++ accepted (c.ended || c.abandoned) ks) [] (resolves n none ∷ []) (calls ks c)
            refl refl (ih c v)))
  | inr h ↦
      rw (h, next_of)
        (subst (λ b. Flows (c.queue ++ accepted b ks) (calls ks (record c { waiter = some n }))) h
          (ih (record c { waiter = some n }) p))
]

return_of-Flows :
    (n : ℕ) (w : Option ℕ) (c : EventChannel) (ks : List ChannelCall)
    → ((d : EventChannel) → Flowing d ks)
    → (c' : EventChannel) → (xs : List ChannelEffect) → delivered xs ≡ []
    → c'.queue ≡ []
    → c'.waiter ≡ none
    → c'.abandoned ≡ true
    → Flows (c.queue ++ []) (after ks (c', xs))
return_of-Flows n w c ks ih c' xs d q u a =
    let f = ih c' (Waits-none c'.waiter c'.queue u) in
    let empty =
      f.flow
      ∙ ap (λ t. t ++ accepted (c'.ended || c'.abandoned) ks) q
      ∙ ap (λ b. accepted b ks) (closed a)
      ∙ accepted_closed ks in
    let (e1, e2) =
      append-empty (delivered (calls ks c').1) ((calls ks c').0.queue ++ f.lost) empty in
    let (e3, e4) = append-empty (calls ks c').0.queue f.lost e2 in
    record {
      lost = c.queue;
      flow =
          ap (λ t. t ++ ((calls ks c').0.queue ++ c.queue))
            (delivered-append xs (calls ks c').1 ∙ ap (λ t. t ++ delivered (calls ks c').1) d ∙ e1)
          ∙ ap (λ t. t ++ c.queue) e3
          ∙ sym (append-nil c.queue);
      kept = λ k. absurd (ground (arith, k, calls-abandoned ks c' a));
    }
  where
    closed : c'.abandoned ≡ true → c'.ended || c'.abandoned ≡ true
    closed h = ground (arith, h)

accepted-claims : (b : Bool) (ks : List ChannelCall) → accepted b ks ≡ accepted b (claims ∷ ks)
accepted-claims true ks = refl
accepted-claims false ks = refl

accepted-takes :
    (b : Bool) (n : ℕ) (ks : List ChannelCall) → accepted b ks ≡ accepted b (takes n ∷ ks)
accepted-takes true n ks = refl
accepted-takes false n ks = refl

accepted-returns : (b : Bool) (n : ℕ) (ks : List ChannelCall) → [] ≡ accepted b (returns n ∷ ks)
accepted-returns true n ks = sym (accepted_closed ks)
accepted-returns false n ks = sym (accepted_closed ks)

accepted-nil : (b : Bool) → [] ≡ accepted b []
accepted-nil true = refl
accepted-nil false = refl

Flows-accepted :
    (q xs ys : List TransportEvent) (r : EventChannel × List ChannelEffect)
    → xs ≡ ys
    → Flows (q ++ xs) r
    → Flows (q ++ ys) r
Flows-accepted q xs ys r e f = subst (λ t. Flows (q ++ t) r) e f

claim-Flows :
    (b : Bool) (c : EventChannel) (ks : List ChannelCall)
    → ((d : EventChannel) → Flowing d ks)
    → Waits c.waiter c.queue
    → Flows
        (c.queue ++ accepted (c.ended || c.abandoned) ks)
        (after ks (if b then (c, throws ∷ []) else (record c { claimed = true }, [])))
claim-Flows true c ks ih v =
    let q = c.queue ++ accepted (c.ended || c.abandoned) ks in
    Flows-step q q [] (throws ∷ []) (calls ks c) refl refl (ih c v)
claim-Flows false c ks ih v = ih (record c { claimed = true }) v

pub calls-Flows : (ks : List ChannelCall) (c : EventChannel) → Flowing c ks
unfolding calls call next_event return_of claim
calls-Flows [] c v = record {
  lost = [];
  flow = ap (◌++◌ c.queue) (accepted-nil (c.ended || c.abandoned));
  kept = λ h. refl;
}
calls-Flows (pushes e ∷ ks) c v = push_event-Flows e c ks (calls-Flows ks) v
calls-Flows (claims ∷ ks) c v =
    Flows-accepted c.queue (accepted (c.ended || c.abandoned) ks)
      (accepted (c.ended || c.abandoned) (claims ∷ ks)) (after ks (claim c))
      (accepted-claims (c.ended || c.abandoned) ks) (claim-Flows c.claimed c ks (calls-Flows ks) v)
calls-Flows (takes n ∷ ks) c v =
    Flows-accepted c.queue (accepted (c.ended || c.abandoned) ks)
      (accepted (c.ended || c.abandoned) (takes n ∷ ks)) (after ks (next_event n c))
      (accepted-takes (c.ended || c.abandoned) n ks)
      (next_of-Flows n c.queue c ks (calls-Flows ks) refl v)
calls-Flows (returns n ∷ ks) c v =
    Flows-accepted c.queue [] (accepted (c.ended || c.abandoned) (returns n ∷ ks))
      (after ks (return_of n c.waiter c)) (accepted-returns (c.ended || c.abandoned) n ks)
      (by_waiter c.waiter (calls-Flows ks))
  where
    by_waiter :
        (w : Option ℕ)
        → ((d : EventChannel) → Flowing d ks)
        → Flows (c.queue ++ []) (after ks (return_of n w c))
    by_waiter none ih =
        return_of-Flows n none c ks ih (return_of n none c).0 (resolves n none ∷ []) refl refl refl
          refl
    by_waiter (some w) ih =
        return_of-Flows n (some w) c ks ih (return_of n (some w) c).0
          (resolves w none ∷ resolves n none ∷ []) refl refl refl refl
