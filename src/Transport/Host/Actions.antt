-- ===== src/Transport/Host/Actions.antt =====
-- Steps of the host: a step changes the state and asks for effects. Steps follow one another by
-- `>>`. What every method of the class uses stands here: `send`, the signals and `stop`.
use uber_coder.Prelude.{
  ℕ, Bool, true, false, not, ◌||◌, Option, none, some, List, [], ◌∷◌, ◌++◌, map, ltb, leb, ◌==◌,
  if◌then◌else◌,
}
use uber_coder.Transport.Host.State.{
  Host, Env, Effect, Outbound, Signal, Connection, sends, ends, destroys, kills_group,
  kills_process, removes_record, closes_server, Callback, destroy_sockets, finish, starts_timer,
  unlinks_socket, resolves_done, sigkill, max_client_backlog_bytes, ChildExit, exit,
}

abbrev pub Action : Type 0
Action = Host → Host × List Effect

infixl 5 ◌>>◌
abbrev pub ◌>>◌ : Action → Action → Action
◌>>◌ m k h = let (h1, es) = m h in let (h2, fs) = k h1 in (h2, es ++ fs)

abbrev pub skip : Action
skip h = (h, [])

abbrev pub ask : List Effect → Action
ask es h = (h, es)

abbrev pub modify : (Host → Host) → Action
modify f h = (f h, [])

-- A step that reads the state first.
abbrev pub reading : (Host → Action) → Action
reading f h = f h h

abbrev pub when : Bool → Action → Action
when true m = m
when false m = skip

-- A step for a value that may be missing.
abbrev pub with_some {ℓ} : {A : Type ℓ} → Option A → (A → Action) → Action
with_some none k = skip
with_some (some a) k = k a

-- `send`: a client that lets too much output pile up is dropped instead.
unfoldable pub send_effects : Env → ℕ → Outbound → List Effect
send_effects env socket message =
    if not (env.writable socket)
    then []
    else if ltb max_client_backlog_bytes (env.backlog socket)
    then destroys socket ∷ []
    else sends socket message ∷ []

abbrev pub send : Env → ℕ → Outbound → Action
send env socket message = ask (send_effects env socket message)

-- The messages of a loop of `send`, to one socket.
unfoldable pub send_all : Env → ℕ → List Outbound → Action
send_all env socket [] = skip
send_all env socket (m ∷ ms) = send env socket m >> send_all env socket ms

-- `signalGroup`: the child's whole group, or the child alone if that fails.
unfoldable pub signal_effects : Env → Option ℕ → Signal → List Effect
signal_effects env none signal = []
signal_effects env (some pid) signal =
    kills_group pid signal ∷ (if env.group_signalled then [] else kills_process pid signal ∷ [])

abbrev pub signal_group : Env → Signal → Action
signal_group env signal = reading λ h. ask (signal_effects env h.child_pid signal)

-- `sweepGroup`: what is left of the child's group, only while the group has members.
unfoldable pub sweep_effects : Env → Option ℕ → Bool → List Effect
sweep_effects env none has_child = []
sweep_effects env (some pid) has_child =
    if leb pid 1 || not has_child
    then []
    else if not env.group_has_members
    then []
    else kills_group pid sigkill ∷ []

abbrev pub sweep_group : Env → Action
sweep_group env = reading λ h. ask (sweep_effects env h.child_pid h.has_child)

abbrev pub sockets : List (ℕ × Connection) → List ℕ
sockets = map λ c. c.0

-- What runs when the server has closed, or a timer of `stop` is over. The socket's file may be gone.
unfoldable pub callback_effects : Callback → List Effect
callback_effects (destroy_sockets ss) = map destroys ss
callback_effects (finish code) = unlinks_socket ∷ resolves_done code ∷ []

-- Behind the removal of the record.
abbrev pub closing : ℕ → List ℕ → List Effect
closing code ss =
    map ends ss
    ++ closes_server (finish code)
      ∷ starts_timer 500 (destroy_sockets ss)
      ∷ starts_timer 1500 (finish code)
      ∷ []

-- `stop`: the record goes first, so that nobody adopts a host that is going away; then every
-- connection is ended and the server closed, with a limit on the time that both may take.
unfoldable pub stop : ℕ → Action
stop code = reading λ h. when (not h.stopped) (
    modify (λ s. record s { stopped = true; linger = none })
    >> ask (removes_record ∷ closing code (sockets h.connections)))

-- `scheduleStop`
unfoldable pub schedule_stop : ℕ → Action
schedule_stop after_ms = reading λ h. when (not h.stopped) (
    if after_ms == 0
    then modify (λ s. record s { linger = none }) >> stop 0
    else modify (λ s. record s { linger = some after_ms }))

abbrev pub exit_messages : Option ChildExit → List Outbound
exit_messages none = []
exit_messages (some e) = exit e ∷ []

-- To the current client, if there is one.
unfoldable pub send_client : Env → List Outbound → Action
send_client env ms = reading λ h. with_some h.client λ c. send_all env c ms
