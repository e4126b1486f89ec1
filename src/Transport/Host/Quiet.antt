-- ===== src/Transport/Host/Quiet.antt =====
-- Steps that leave alone what decides when the host stops: the recorded exit, the phase of the
-- termination, the stop timer and the flag.
use uber_coder.Prelude.{
  ℕ, ◌≡◌, refl, ◌∙◌, Bool, true, false, Option, none, some, List, [], ◌∷◌, ◌++◌, if◌then◌else◌, not,
  any, ◌==◌, Text,
}
use uber_coder.Transport.Host.State.{
  Host, Env, Effect, Outbound, Connection, ChildExit, RawExit, Value, ends,
}
use uber_coder.Transport.Host.Actions.{
  Action, ◌>>◌, skip, ask, modify, reading, when, with_some, send_all, send_client, exit_messages,
}
use uber_coder.Transport.Host.Child.{
  tell_watchers, on_child_line, append_stderr, on_exit, write_to_child, end_stdin,
}
use uber_coder.Transport.Host.Clients.{
  is_client, replay, replace_previous, greet, attach, watch_exit, identify, accept_write,
}

pub record Quiet (h h' : Host) : Type 0 where
  pub child_exit : h'.child_exit ≡ h.child_exit
  pub phase : h'.phase ≡ h.phase
  pub linger : h'.linger ≡ h.linger
  pub stopped : h'.stopped ≡ h.stopped
  pub has_child : h'.has_child ≡ h.has_child

pub Quiet-refl : (h : Host) → Quiet h h
Quiet-refl h = record {
  child_exit = refl;
  phase = refl;
  linger = refl;
  stopped = refl;
  has_child = refl;
}

pub Quiet-trans : {h h1 h2 : Host} → Quiet h h1 → Quiet h1 h2 → Quiet h h2
Quiet-trans p q = record {
  child_exit = q.child_exit ∙ p.child_exit;
  phase = q.phase ∙ p.phase;
  linger = q.linger ∙ p.linger;
  stopped = q.stopped ∙ p.stopped;
  has_child = q.has_child ∙ p.has_child;
}

pub record IsQuiet (m : Action) : Type 0 where
  pub at : (h : Host) → Quiet h (m h).0

pub skip-IsQuiet : IsQuiet skip
skip-IsQuiet = record { at = Quiet-refl }

pub ask-IsQuiet : (es : List Effect) → IsQuiet (ask es)
ask-IsQuiet es = record { at = Quiet-refl }

pub >>-IsQuiet : (m k : Action) → IsQuiet m → IsQuiet k → IsQuiet (m >> k)
>>-IsQuiet m k p q = record { at = λ h. Quiet-trans (p.at h) (q.at (m h).0) }

pub reading-IsQuiet : (f : Host → Action) → ((h : Host) → IsQuiet (f h)) → IsQuiet (reading f)
reading-IsQuiet f p = record { at = λ h. (p h).at h }

pub when-IsQuiet : (b : Bool) (m : Action) → IsQuiet m → IsQuiet (when b m)
when-IsQuiet true m p = p
when-IsQuiet false m p = skip-IsQuiet

pub with_some-IsQuiet {ℓ} :
    {A : Type ℓ} (o : Option A) (k : A → Action)
    → ((a : A) → IsQuiet (k a))
    → IsQuiet (with_some o k)
with_some-IsQuiet none k p = skip-IsQuiet
with_some-IsQuiet (some a) k p = p a

pub modify-IsQuiet :
    (f : Host → Host)
    → ((h : Host) → (f h).child_exit ≡ h.child_exit)
    → ((h : Host) → (f h).phase ≡ h.phase)
    → ((h : Host) → (f h).linger ≡ h.linger)
    → ((h : Host) → (f h).stopped ≡ h.stopped)
    → ((h : Host) → (f h).has_child ≡ h.has_child)
    → IsQuiet (modify f)
modify-IsQuiet f a b c d e = record {
  at = λ h. record { child_exit = a h; phase = b h; linger = c h; stopped = d h; has_child = e h };
}

pub ruleset quiet_rules = (
  skip-IsQuiet, ask-IsQuiet, >>-IsQuiet, reading-IsQuiet, when-IsQuiet, with_some-IsQuiet,
  modify-IsQuiet,
)

pub send_all-state :
    (env : Env) (s : ℕ) (ms : List Outbound) (h : Host) → (send_all env s ms h).0 ≡ h
unfolding send_all
send_all-state env s [] h = refl
send_all-state env s (m ∷ ms) h = send_all-state env s ms h

pub send_all-IsQuiet : (env : Env) (s : ℕ) (ms : List Outbound) → IsQuiet (send_all env s ms)
unfolding send_all
send_all-IsQuiet env s [] = skip-IsQuiet
send_all-IsQuiet env s (m ∷ ms) = >>-IsQuiet _ _ (ask-IsQuiet _) (send_all-IsQuiet env s ms)

pub send_client-state : (env : Env) (ms : List Outbound) (h : Host) → (send_client env ms h).0 ≡ h
unfolding send_client
send_client-state env ms h = at h.client
  where
    at : (o : Option ℕ) → (with_some o (λ c. send_all env c ms) h).0 ≡ h
    at none = refl
    at (some c) = send_all-state env c ms h

pub tell_watchers-state :
    (env : Env) (e : ChildExit) (ws : List ℕ) (h : Host) → (tell_watchers env e ws h).0 ≡ h
unfolding tell_watchers
tell_watchers-state env e [] h = refl
tell_watchers-state env e (w ∷ ws) h = tell_watchers-state env e ws h

send_client-IsQuiet : (env : Env) (ms : List Outbound) → IsQuiet (send_client env ms)
unfolding send_client
send_client-IsQuiet env ms = search (quiet_rules, send_all-IsQuiet)

pub on_child_line-IsQuiet : (env : Env) (line : Text) → IsQuiet (on_child_line env line)
unfolding on_child_line
on_child_line-IsQuiet env line = search (quiet_rules, send_client-IsQuiet)

pub append_stderr-IsQuiet : (chunk : List ℕ) → IsQuiet (append_stderr chunk)
unfolding append_stderr
append_stderr-IsQuiet chunk = search quiet_rules

pub on_exit-IsQuiet : (raw : RawExit) → IsQuiet (on_exit raw)
unfolding on_exit
on_exit-IsQuiet raw = search quiet_rules

write_to_child-IsQuiet : (env : Env) (line : Text) → IsQuiet (write_to_child env line)
unfolding write_to_child
write_to_child-IsQuiet env line = search quiet_rules

pub end_stdin-IsQuiet : IsQuiet end_stdin
unfolding end_stdin
end_stdin-IsQuiet = search quiet_rules

replay-IsQuiet : (env : Env) (socket : ℕ) (n : Option ℕ) → IsQuiet (replay env socket n)
unfolding replay
replay-IsQuiet env socket none = skip-IsQuiet
replay-IsQuiet env socket (some n) = search (quiet_rules, send_all-IsQuiet)

replace_previous-IsQuiet :
    (env : Env) (socket : ℕ) (p : Option ℕ) → IsQuiet (replace_previous env socket p)
unfolding replace_previous
replace_previous-IsQuiet env socket none = skip-IsQuiet
replace_previous-IsQuiet env socket (some p) = search quiet_rules

greet-IsQuiet : (env : Env) (socket : ℕ) (v : Value) → IsQuiet (greet env socket v)
unfolding greet
greet-IsQuiet env socket v = search (quiet_rules, send_all-IsQuiet, replay-IsQuiet) depth 8

pub attach-IsQuiet : (env : Env) (socket : ℕ) (v : Value) → IsQuiet (attach env socket v)
unfolding attach
attach-IsQuiet env socket v = search (quiet_rules, replace_previous-IsQuiet, greet-IsQuiet)

pub identify-IsQuiet : (socket : ℕ) → IsQuiet (identify socket)
unfolding identify
identify-IsQuiet socket = search quiet_rules

pub accept_write-IsQuiet :
    (env : Env) (socket : ℕ) (c : Connection) (v : Value) → IsQuiet (accept_write env socket c v)
unfolding accept_write
accept_write-IsQuiet env socket c v = search (quiet_rules, write_to_child-IsQuiet)

pub watch_exit-IsQuiet : (env : Env) (socket : ℕ) → IsQuiet (watch_exit env socket)
unfolding watch_exit
watch_exit-IsQuiet env socket = reading-IsQuiet _ λ h. at h h.child_exit
  where
    at :
        (h : Host) (o : Option ChildExit)
        → IsQuiet (elim o [
          | some e ↦ send_all env socket (exit_messages (some e)) >> ask (ends socket ∷ [])
          | none ↦ when (not (is_client socket h)) (
              modify λ s. record s {
                exit_watchers =
                    if any (λ w. w == socket) s.exit_watchers
                    then s.exit_watchers
                    else s.exit_watchers ++ socket ∷ [];
              })
        ])
    at h none = search quiet_rules
    at h (some e) = search (quiet_rules, send_all-IsQuiet)
