-- ===== src/Transport/Channel.antt =====
-- `EventChannel` of apps/server/src/providers/transport/claude/event-channel.ts: the queue between a
-- session and the one consumer of its events. A call of `next` or `return` is known by a number, and
-- its promise is resolved with an event or, as `none`, as done.
pub mod Order
pub mod Promises
mod Examples
use uber_coder.Prelude.{
  ℕ, Bool, true, false, ◌||◌, Option, none, some, List, [], ◌∷◌, ◌++◌, Text, if◌then◌else◌,
}

pub record TransportEvent : Type 0 where
  pub is_stopped : Bool
  pub body : Text

pub record EventChannel : Type 0 where
  pub queue : List TransportEvent
  pub waiter : Option ℕ
  pub ended : Bool
  pub abandoned : Bool
  pub claimed : Bool

pub data ChannelEffect : Type 0 where
  resolves : ℕ → Option TransportEvent → ChannelEffect
  throws : ChannelEffect

unfoldable pub new_channel : EventChannel
new_channel = record {
  queue = [];
  waiter = none;
  ended = false;
  abandoned = false;
  claimed = false;
}

-- To the waiter if there is one, or to the queue.
unfoldable pub hand_over :
    Option ℕ → TransportEvent → EventChannel → EventChannel × List ChannelEffect
hand_over (some n) e c = (record c { waiter = none }, resolves n (some e) ∷ [])
hand_over none e c = (record c { queue = c.queue ++ e ∷ [] }, [])

-- `push`
unfoldable pub push_event : TransportEvent → EventChannel → EventChannel × List ChannelEffect
push_event e c =
    if c.ended || c.abandoned
    then (c, [])
    else hand_over c.waiter e (record c { ended = e.is_stopped })

-- `claim`
unfoldable pub claim : EventChannel → EventChannel × List ChannelEffect
claim c = if c.claimed then (c, throws ∷ []) else (record c { claimed = true }, [])

-- `next`, with what the queue has.
unfoldable pub next_of : ℕ → List TransportEvent → EventChannel → EventChannel × List ChannelEffect
next_of n (e ∷ es) c = (record c { queue = es }, resolves n (some e) ∷ [])
next_of n [] c =
    if c.ended || c.abandoned then (c, resolves n none ∷ []) else (record c { waiter = some n }, [])

unfoldable pub next_event : ℕ → EventChannel → EventChannel × List ChannelEffect
next_event n c = next_of n c.queue c

-- `return`
unfoldable pub return_of : ℕ → Option ℕ → EventChannel → EventChannel × List ChannelEffect
return_of n none c =
    (record c { abandoned = true; queue = []; waiter = none }, resolves n none ∷ [])
return_of n (some w) c = (
  record c { abandoned = true; queue = []; waiter = none },
  resolves w none ∷ resolves n none ∷ [],
)

pub data ChannelCall : Type 0 where
  pushes : TransportEvent → ChannelCall
  claims : ChannelCall
  takes returns : ℕ → ChannelCall

unfoldable pub call : ChannelCall → EventChannel → EventChannel × List ChannelEffect
call (pushes e) c = push_event e c
call claims c = claim c
call (takes n) c = next_event n c
call (returns n) c = return_of n c.waiter c

unfoldable pub calls : List ChannelCall → EventChannel → EventChannel × List ChannelEffect
calls [] c = (c, [])
calls (k ∷ ks) c = let (c1, es) = call k c in let (c2, fs) = calls ks c1 in (c2, es ++ fs)
