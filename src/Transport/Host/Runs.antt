-- ===== src/Transport/Host/Runs.antt =====
-- What holds of every run of the host, whatever the order of its events.
use uber_coder.Prelude.{
  ℕ, ◌+◌, ◌≡◌, ◌≢◌, ◌∙◌, refl, Option, Bool, true, false, some, List, if◌then◌else◌, arith,
}
use uber_coder.Transport.Startup.{RecordFields, HostRecord, parse_host_record}
use uber_coder.Transport.Host.State.{Host, Env, Effect, ChildExit}
use uber_coder.Transport.Host.Record.{
  RecordFile, unreadable, written, current, remove_record, record_after, record_after-none,
  record_after-one, remove_record-kept, remove_record-own,
}
use uber_coder.Transport.Host.Events.{Event, Options, started, run}
use uber_coder.Transport.Host.Steps.{removals, writes, flag, IsShut}
use uber_coder.Transport.Host.Proper.{run-IsProper}

-- What a run from a state that is stopped, or not yet, does to the record file.
record_after-Proper :
    (own : ℕ) (file : RecordFile) (b c : Bool) (es : List Effect)
    → flag b + removals es ≡ flag c
    → record_after own es file ≡ (if b then file else if c then remove_record own file else file)
record_after-Proper own file true true es h = record_after-none own es file (omega (arith, h))
record_after-Proper own file true false es h = absurd (omega (arith, h))
record_after-Proper own file false true es h = record_after-one own es file (omega (arith, h))
record_after-Proper own file false false es h = record_after-none own es file (omega (arith, h))

record_after-kept :
    (own : ℕ) (file : RecordFile) (b c : Bool)
    → remove_record own file ≡ file
    → (if b then file else if c then remove_record own file else file) ≡ file
record_after-kept own file true c h = refl
record_after-kept own file false true h = h
record_after-kept own file false false h = refl

-- Let a run from the start go on with `es` while nobody else writes the record file. If the file has
-- the host's own record and can be unlinked, it is gone if the host stops in between, and only then; and
-- if it has the record of another host, that is still there whatever happened.
pub run-removals :
    (o : Options) (pid own : ℕ) (before es : List (Env × Event)) (mine : Option RecordFields)
    (other : RecordFile) (r successor : HostRecord)
    → parse_host_record mine ≡ some r
    → r.host.pid ≡ own
    → current other ≡ some successor
    → successor.host.pid ≢ own
    → let h = (run before (started o pid)).0 in
      let (h', effects) = run es h in
      let file = written true mine in
      (record_after own effects file
        ≡ (if h.stopped then file else if h'.stopped then unreadable else file))
      × (record_after own effects other ≡ other)
unfolding started
run-removals o pid own before es mine other r successor p q e d =
    let h = (run before (started o pid)).0 in
    let (h', effects) = run es h in
    let once = ((run-IsProper es).at h).once in
    let file = written true mine in
    (
      record_after-Proper own file h.stopped h'.stopped effects once
          ∙ rw (remove_record-own own mine r p q) refl,
      record_after-Proper own other h.stopped h'.stopped effects once
          ∙ record_after-kept own other h.stopped h'.stopped
              (remove_record-kept own other successor e d),
    )

-- In every run from the start the count behind `everWrote` is the number of lines that were written
-- to the child's stdin.
pub run-lines_written :
    (o : Options) (pid : ℕ) (es : List (Env × Event))
    → (run es (started o pid)).0.lines_written ≡ writes (run es (started o pid)).1
unfolding started
run-lines_written o pid es = omega (arith, ((run-IsProper es).at (started o pid)).counted)

-- From a state in which the child has ended or its stdin was closed, no run writes to the child
-- again, and the exit that was recorded is never replaced by another.
pub run-silent :
    (h : Host) (es : List (Env × Event))
    → IsShut h
    → (writes (run es h).1 ≡ 0)
      × ((e : ChildExit) → h.child_exit ≡ some e → (run es h).0.child_exit ≡ some e)
run-silent h es s = let p = (run-IsProper es).at h in (p.silent s, p.final)
