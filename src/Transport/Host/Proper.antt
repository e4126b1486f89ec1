-- ===== src/Transport/Host/Proper.antt =====
-- Every event of the host is a proper step: the record goes when the host stops and only then, the
-- end of the child is final, and nothing is written to a child that has ended or lost its stdin.
use uber_coder.Prelude.{
  ℕ, not, Option, none, some, List, [], ◌∷◌, ◌++◌, if◌then◌else◌, Text, ◌==◌, any,
}
use uber_coder.Transport.Host.State
use uber_coder.Transport.Host.State.{
  Host, Env, Effect, Outbound, Signal, Connection, ChildExit, RawExit, ExitError, Phase, sends,
  ends, destroys, kills_group, kills_process, writes_stdin, ends_stdin, removes_record,
  closes_server, idle, wait_close, wait_term, wait_kill, over, Value, Inbound, sigterm, sigkill,
  exit,
}
use uber_coder.Transport.Host.Actions.{◌>>◌, ask, modify, when, send_all, exit_messages}
use uber_coder.Transport.Host.Child.{on_child_line, append_stderr}
use uber_coder.Transport.Host.Clients.{
  is_client, replay, replace_previous, greet, attach, watch_exit, identify, accept_write,
  on_message,
}
use uber_coder.Transport.Host.Events.{
  Event, connects, identify_timeout, closes, message, child_line, child_stderr, line_overflow,
  child_exits, flush_over, child_closes, wait_over, linger_over, term_signal, crashes,
  on_connection, on_identify_timeout, on_socket_close, on_line, on_wait_over, on_linger_over, abort,
  step, run,
}
use uber_coder.Transport.Host.Steps.{
  IsProper, skip-IsProper, >>-IsProper, reading-IsProper, proper_rules,
}
use uber_coder.Transport.Host.Cleanup.{
  send-IsProper, send_all-IsProper, send_client-IsProper, signal_group-IsProper, stop-IsProper,
  schedule_stop-IsProper, ask_ends-IsProper, ask_destroys-IsProper, on_child_ended-IsProper,
  on_exit-IsProper, on_close-IsProper, fail_child-IsProper, write_to_child-IsProper,
  terminate_child-IsProper, wait_done-IsProper,
}

on_child_line-IsProper : (env : Env) (line : Text) → IsProper (on_child_line env line)
unfolding on_child_line
on_child_line-IsProper env line = search (proper_rules, send_client-IsProper)

append_stderr-IsProper : (chunk : List ℕ) → IsProper (append_stderr chunk)
unfolding append_stderr
append_stderr-IsProper chunk = search proper_rules

replay-IsProper : (env : Env) (socket : ℕ) (n : Option ℕ) → IsProper (replay env socket n)
unfolding replay
replay-IsProper env socket none = skip-IsProper
replay-IsProper env socket (some n) = search (proper_rules, send_all-IsProper)

replace_previous-IsProper :
    (env : Env) (socket : ℕ) (p : Option ℕ) → IsProper (replace_previous env socket p)
unfolding replace_previous
replace_previous-IsProper env socket none = skip-IsProper
replace_previous-IsProper env socket (some p) =
    search (proper_rules, send-IsProper, ask_ends-IsProper)

greet-IsProper : (env : Env) (socket : ℕ) (v : Value) → IsProper (greet env socket v)
unfolding greet
greet-IsProper env socket v =
    search (proper_rules, send-IsProper, send_all-IsProper, replay-IsProper) depth 8

attach-IsProper : (env : Env) (socket : ℕ) (v : Value) → IsProper (attach env socket v)
unfolding attach
attach-IsProper env socket v = search (proper_rules, replace_previous-IsProper, greet-IsProper)

identify-IsProper : (socket : ℕ) → IsProper (identify socket)
unfolding identify
identify-IsProper socket = search proper_rules

accept_write-IsProper :
    (env : Env) (socket : ℕ) (c : Connection) (v : Value) → IsProper (accept_write env socket c v)
unfolding accept_write
accept_write-IsProper env socket c v = search (proper_rules, write_to_child-IsProper)

watch_exit-IsProper : (env : Env) (socket : ℕ) → IsProper (watch_exit env socket)
unfolding watch_exit
watch_exit-IsProper env socket = reading-IsProper _ λ h. at h h.child_exit
  where
    at :
        (h : Host) (o : Option ChildExit)
        → IsProper (elim o [
          | some e ↦ send_all env socket (exit_messages (some e)) >> ask (ends socket ∷ [])
          | none ↦ when (not (is_client socket h)) (
              modify λ s. record s {
                exit_watchers =
                    if any (λ w. w == socket) s.exit_watchers
                    then s.exit_watchers
                    else s.exit_watchers ++ socket ∷ [];
              })
        ])
    at h none = search proper_rules
    at h (some e) = search (proper_rules, send_all-IsProper, ask_ends-IsProper)

on_message-IsProper :
    (env : Env) (socket : ℕ) (c : Connection) (m : Inbound) → IsProper (on_message env socket c m)
unfolding on_message
on_message-IsProper env socket c State.not_json = send-IsProper _ _ _
on_message-IsProper env socket c State.no_type = send-IsProper _ _ _
on_message-IsProper env socket c (State.hello v) =
    search (proper_rules, identify-IsProper, attach-IsProper)
on_message-IsProper env socket c (State.write v) =
    search (proper_rules, identify-IsProper, accept_write-IsProper)
on_message-IsProper env socket c State.status =
    search (proper_rules, identify-IsProper, send-IsProper, ask_ends-IsProper) depth 7
on_message-IsProper env socket c (State.terminate v w) =
    search (proper_rules, identify-IsProper, watch_exit-IsProper, terminate_child-IsProper) depth 7
on_message-IsProper env socket c (State.unknown n) =
    search (proper_rules, identify-IsProper, send-IsProper)

-- Whatever happens, a step of the host is proper.
pub step-IsProper : (env : Env) (e : Event) → IsProper (step env e)
unfolding step
step-IsProper env (connects s) = unfold on_connection in search proper_rules
step-IsProper env (identify_timeout s) =
    unfold on_identify_timeout in search (proper_rules, ask_destroys-IsProper)
step-IsProper env (closes s) =
    unfold on_socket_close in search (proper_rules, schedule_stop-IsProper)
step-IsProper env (message s m) = unfold on_line in search (proper_rules, on_message-IsProper)
step-IsProper env (child_line l) = on_child_line-IsProper env l
step-IsProper env (child_stderr c) = append_stderr-IsProper c
step-IsProper env (line_overflow e) = fail_child-IsProper env e
step-IsProper env (child_exits raw) = on_exit-IsProper raw
step-IsProper env flush_over = on_child_ended-IsProper env
step-IsProper env (child_closes raw) = on_close-IsProper env raw
step-IsProper env wait_over = unfold on_wait_over in search (proper_rules, wait_done-IsProper)
step-IsProper env linger_over = unfold on_linger_over in search (proper_rules, stop-IsProper)
step-IsProper env term_signal = search (proper_rules, terminate_child-IsProper)
step-IsProper env crashes =
    unfold abort in search (proper_rules, signal_group-IsProper, stop-IsProper)

pub run-IsProper : (es : List (Env × Event)) → IsProper (run es)
unfolding run
run-IsProper [] = skip-IsProper
run-IsProper ((env, e) ∷ es) = >>-IsProper _ _ (step-IsProper env e) (run-IsProper es)
