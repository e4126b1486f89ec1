-- ===== src/Transport/Channel/Examples.antt =====
-- The theorem on channels, applied to a session of two events that then stops.
use uber_coder.Prelude.{ℕ, ◌+◌, ◌≤◌, ◌≡◌, Bool, true, false, List, [], ◌∷◌, ◌++◌}
use uber_coder.Transport.Channel.{
  TransportEvent, ChannelCall, pushes, claims, takes, returns, calls, new_channel,
}
use uber_coder.Transport.Channel.Order.{Waits, delivered, accepted}
use uber_coder.Transport.Channel.Promises.{settled, waiting, asked, calls-delivered}

abbrev said : Bool → ℕ → TransportEvent
said is_stopped n = record { is_stopped = is_stopped; body = n ∷ [] }

abbrev session : List ChannelCall
session =
    claims
    ∷ takes 1
    ∷ pushes (said false 5)
    ∷ pushes (said false 6)
    ∷ pushes (said true 7)
    ∷ pushes (said false 8)
    ∷ takes 2
    ∷ returns 3
    ∷ []

calls-delivered_example :
    let (c, xs) = calls session new_channel in
    ((lost : List TransportEvent) × (delivered xs ++ (c.queue ++ lost) ≡ accepted false session)
      × (c.abandoned ≡ false → lost ≡ []))
    × ((n : ℕ) → settled n xs + waiting n c.waiter ≤ asked n session)
    × Waits c.waiter c.queue
calls-delivered_example = calls-delivered session
