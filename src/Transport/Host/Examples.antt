-- ===== src/Transport/Host/Examples.antt =====
-- The theorems on session hosts, applied to short runs of one host.
use uber_coder.Prelude.{
  ℕ, ◌+◌, ◌<◌, ◌≡◌, refl, true, false, ◌⊎◌, inr, List, [], ◌∷◌, ◌++◌, length, Text, arith, is_some,
  none, some, drop, map, if◌then◌else◌,
}
use uber_coder.Transport.Replay.History.{number_from, new_buffer-Keeps}
use uber_coder.Transport.Host.State.{Host, Env, RawExit, ChildExit, natural, hello, write, text}
use uber_coder.Transport.Host.Actions.{◌>>◌, schedule_stop, sweep_effects, send_client, stop}
use uber_coder.Transport.Host.Child.{
  on_child_line, on_close, on_child_ended, report_exit, tell_exit, exit_of, tell_watchers,
}
use uber_coder.Transport.Host.Clients.{attach}
use uber_coder.Transport.Host.Events.{
  Event, Options, connects, message, child_line, child_closes, wait_over, term_signal, linger_over,
  started, step, run, on_linger_over,
}
use uber_coder.Transport.Host.Steps.{writes}
use uber_coder.Transport.Startup
use uber_coder.Transport.Startup.{
  IdentityFields, RecordFields, HostRecord, parse_identity, parse_host_record,
}
use uber_coder.Transport.Host.Record.{unreadable, written, record_after, remove_record}
use uber_coder.Transport.Host.Runs.{run-removals, run-lines_written, run-silent}
use uber_coder.Transport.Host.Stops.{run-ended, run-term_signal, waits}
use uber_coder.Transport.Host.Greeting.{received_to, told_gap, got}
use uber_coder.Transport.Host.Attach.{attach-then-lines, lines_of, texts_of}

abbrev options : Options
options = record {
  close_grace_ms = 5000;
  term_grace_ms = 5000;
  linger_ms = 30000;
  replay_max_bytes = 100;
  replay_max_age_ms = 1000;
}

abbrev system : Env
system = record {
  now = 1;
  writable = λ s. true;
  backlog = λ s. 0;
  stdin_open = true;
  group_signalled = true;
  group_has_members = false;
  byte_length = length;
}

abbrev clean : RawExit
clean = record { code = some 0; signal = none }

abbrev session : List (Env × Event)
session =
    (system, connects 3)
    ∷ (system, message 3 (hello (natural 0)))
    ∷ (system, message 3 (write (text (65 ∷ []))))
    ∷ (system, child_line (66 ∷ []))
    ∷ []

abbrev ending : List (Env × Event)
ending = (system, child_line (66 ∷ [])) ∷ (system, child_closes clean) ∷ []

abbrev three_waits : List (Env × Event)
three_waits = (system, wait_over) ∷ (system, wait_over) ∷ (system, wait_over) ∷ []

abbrev ended : Host
ended = (run ending (started options 42)).0

abbrev live : List (Env × Text)
live = (system, 66 ∷ []) ∷ (system, 67 ∷ []) ∷ []

-- The record of the host whose process is 39 or another, with the child 42.
abbrev identity : ℕ → IdentityFields
identity pid = record {
  pid = Startup.natural pid;
  start_ticks = Startup.other;
  boot_id = Startup.other;
  process_group = Startup.natural 42;
}

abbrev record_fields : ℕ → RecordFields
record_fields pid = record {
  version = Startup.natural 1;
  socket_path = Startup.text [];
  argv_hash = Startup.text [];
  started_at = Startup.other;
  parent_death_signal = Startup.other;
  host = some (identity pid);
  child = some (identity 42);
}

abbrev parsed_record : ℕ → HostRecord
parsed_record pid = record {
  host = record { pid = pid; start_ticks = none; boot_id = none };
  child = record { pid = 42; start_ticks = none; boot_id = none };
  process_group = 42;
  socket_path = [];
  argv_hash = [];
  started_at = [];
  parent_death_signal = false;
}

own_record-parsed : parse_host_record (some (record_fields 39)) ≡ some (parsed_record 39)
unfolding parse_host_record parse_identity
own_record-parsed = refl

other_record-parsed : parse_host_record (some (record_fields 50)) ≡ some (parsed_record 50)
unfolding parse_host_record parse_identity
other_record-parsed = refl

run-removals_example :
    let h = (run ending (started options 42)).0 in
    let (h', effects) = run ((system, linger_over) ∷ []) h in
    let file = written true (some (record_fields 39)) in
    (record_after 39 effects file
      ≡ (if h.stopped then file else if h'.stopped then unreadable else file))
    × (record_after 39 effects (written true (some (record_fields 50)))
        ≡ written true (some (record_fields 50)))
run-removals_example =
    run-removals options 42 39 ending ((system, linger_over) ∷ []) (some (record_fields 39))
      (written true (some (record_fields 50))) (parsed_record 39) (parsed_record 50)
      own_record-parsed refl other_record-parsed (omega arith)

stopped_example :
    record_after 39
      (run (ending ++ (system, linger_over) ∷ []) (started options 42)).1
      (written true (some (record_fields 39)))
    ≡ unreadable
unfolding started step run stop remove_record parse_host_record parse_identity on_child_line
    on_close on_child_ended report_exit tell_exit exit_of tell_watchers schedule_stop sweep_effects
    send_client on_linger_over
stopped_example = refl

run-lines_written_example :
    (run session (started options 42)).0.lines_written ≡ writes (run session (started options 42)).1
run-lines_written_example = run-lines_written options 42 session

ended-child_exit : is_some ended.child_exit ≡ true
unfolding run step started on_child_line on_close on_child_ended report_exit tell_exit schedule_stop
    sweep_effects exit_of send_client tell_watchers stop
ended-child_exit = refl

run-ended_example : (ended.stopped ≡ true) ⊎ (is_some ended.linger ≡ true)
run-ended_example = run-ended options 42 ending ended-child_exit

run-silent_example :
    (writes (run session ended).1 ≡ 0)
    × ((e : ChildExit) → ended.child_exit ≡ some e → (run session ended).0.child_exit ≡ some e)
run-silent_example = run-silent ended session (inr ended-child_exit)

run-term_signal_example :
    let h = (run three_waits (step system term_signal (run session (started options 42)).0).0).0 in
    (h.stopped ≡ true) × (is_some h.child_exit ≡ true)
unfolding waits
run-term_signal_example = run-term_signal options 42 session three_waits system (omega arith)

attach-then-lines_example :
    let r = (attach system 3 (natural 0) >> run (lines_of live)) (started options 42) in
    (received_to 3 r.1 ≡ map got (number_from 0 (texts_of live)))
    ⊎ ((m : ℕ) × (0 < m)
        × (received_to 3 r.1 ≡ told_gap (m + 1) ∷ map got (number_from m (drop m (texts_of live)))))
unfolding started
attach-then-lines_example =
    attach-then-lines system 3 0 [] (started options 42) live (new_buffer-Keeps 100 1000)
      (refl, omega arith) ((refl, omega arith), ((refl, omega arith), tt)) (omega arith)
