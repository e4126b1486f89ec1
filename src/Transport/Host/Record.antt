-- ===== src/Transport/Host/Record.antt =====
-- `removeRecord` of apps/server/src/providers/transport/session-host.ts, on the record file that it finds.
use uber_coder.Prelude.{
  ℕ, ◌≡◌, refl, ◌≢◌, Bool, true, false, Option, none, some, List, [], ◌∷◌, ◌==◌, ==_iff,
  if◌then◌else◌, arith, inl, inr, Bool-cases, not,
}
use uber_coder.Transport.Startup.{RecordFields, HostRecord, parse_host_record}
use uber_coder.Transport.Host.State.{Effect, removes_record}
use uber_coder.Transport.Host.Steps.{removals}

-- The file at `recordPath`: none that can be read, or one with its parsed text (none if that is no JSON
-- object) that may be unlinked or not.
pub data RecordFile : Type 0 where
  unreadable : RecordFile
  written : Bool → Option RecordFields → RecordFile

-- `fs.unlinkSync`, whose error is dropped.
abbrev pub unlink : RecordFile → RecordFile
unlink unreadable = unreadable
unlink (written true f) = unreadable
unlink (written false f) = written false f

abbrev pub is_successors : ℕ → Option HostRecord → Bool
is_successors own none = false
is_successors own (some current) = not (current.host.pid == own)

abbrev pub current : RecordFile → Option HostRecord
current unreadable = none
current (written u f) = parse_host_record f

-- `removeRecord`, of the host whose process is `own`.
unfoldable pub remove_record : ℕ → RecordFile → RecordFile
remove_record own file = if is_successors own (current file) then file else unlink file

-- The record file behind the effects of a run in which no other process writes it.
abbrev pub record_after : ℕ → List Effect → RecordFile → RecordFile
record_after own [] file = file
record_after own (removes_record ∷ es) file = record_after own es (remove_record own file)
record_after own (_ ∷ es) file = record_after own es file

pub record_after-none :
    (own : ℕ) (es : List Effect) (file : RecordFile)
    → removals es ≡ 0
    → record_after own es file ≡ file
record_after-none own [] file h = refl
record_after-none own (removes_record ∷ es) file h = absurd (omega (arith, h))
record_after-none own (_ ∷ es) file h = record_after-none own es file h

pub record_after-one :
    (own : ℕ) (es : List Effect) (file : RecordFile)
    → removals es ≡ 1
    → record_after own es file ≡ remove_record own file
record_after-one own [] file h = absurd (omega (arith, h))
record_after-one own (removes_record ∷ es) file h =
    record_after-none own es (remove_record own file) (omega (arith, h))
record_after-one own (_ ∷ es) file h = record_after-one own es file h

pub remove_record-kept :
    (own : ℕ) (file : RecordFile) (r : HostRecord)
    → current file ≡ some r
    → r.host.pid ≢ own
    → remove_record own file ≡ file
unfolding remove_record
remove_record-kept own file r e d = elim (Bool-cases (r.host.pid == own)) [
  | inl s ↦ absurd (d ((==_iff r.host.pid own).0 s))
  | inr s ↦ rw (e, s) refl
]

pub remove_record-own :
    (own : ℕ) (f : Option RecordFields) (r : HostRecord)
    → parse_host_record f ≡ some r
    → r.host.pid ≡ own
    → remove_record own (written true f) ≡ unreadable
unfolding remove_record
remove_record-own own f r e d = rw (e, (==_iff r.host.pid own).1 d) refl
