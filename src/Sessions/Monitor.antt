-- ===== src/Sessions/Monitor.antt =====
-- `StructuredRunMonitor` of apps/server/src/sessions/structured/structured-run-monitor.ts: the state of
-- a session's run, from the transport's own events and from the transcript. A time is the milliseconds
-- that `Date.parse` reads in it. What the transcript's monitor reads is an argument of `read`.
pub mod Turns
mod Examples
use uber_coder.Prelude.{
  ℕ, Bool, true, false, not, ◌||◌, ◌&&◌, Option, none, some, List, [], ◌∷◌, Text, ltb,
  if◌then◌else◌, same_text, or_else, is_some,
}

pub data RunStatus : Type 0 where
  running completed cancelled failed : RunStatus

pub record RunError : Type 0 where
  pub code : Text
  pub message : Option Text

pub record RunState : Type 0 where
  pub turn_id : Text
  pub timestamp : ℕ
  pub started_at : ℕ
  pub progress_at : Option ℕ
  pub status : RunStatus
  pub error : Option RunError

pub record Monitor : Type 0 where
  pub protocol : Option RunState
  -- The path of the transcript's monitor.
  pub transcript : Option Text

-- How the transport says that a turn ended.
pub data TurnEnd : Type 0 where
  ended_completed ended_interrupted ended_failed : TurnEnd

pub record ProviderFailure : Type 0 where
  pub code : Option Text
  pub failure_class : Option Text
  pub message : Option Text

unfoldable pub new_monitor : Monitor
new_monitor = record { protocol = none; transcript = none }

abbrev pub has_path : Text → Option Text → Bool
has_path path none = false
has_path path (some p) = same_text p path

-- `attachTranscript`, for a path and whether a monitor can be made; and whether one was attached.
unfoldable pub attach_transcript : Option Text → Bool → Monitor → Monitor × Bool
attach_transcript none can_create m = (m, false)
attach_transcript (some path) can_create m =
    if not can_create || has_path path m.transcript
    then (m, false)
    else (record m { transcript = some path }, true)

-- `reset`
unfoldable pub reset : Monitor → Monitor
reset m = record m { protocol = none }

-- `turnStarted`
unfoldable pub turn_started : Text → ℕ → Monitor → Monitor
turn_started turn_id at m = record m {
  protocol = some (record {
    turn_id = turn_id;
    timestamp = at;
    started_at = at;
    progress_at = none;
    status = running;
    error = none;
  });
}

abbrev pub is_running : RunStatus → Bool
is_running running = true
is_running completed = false
is_running cancelled = false
is_running failed = false

abbrev pub progressed : ℕ → Option RunState → Option RunState
progressed at none = none
progressed at (some s) =
    if is_running s.status then some (record s { progress_at = some at }) else some s

-- `itemCompleted`
unfoldable pub item_completed : ℕ → Monitor → Monitor
item_completed at m = record m { protocol = progressed at m.protocol }

abbrev pub status_of_end : TurnEnd → RunStatus
status_of_end ended_completed = completed
status_of_end ended_interrupted = cancelled
status_of_end ended_failed = failed

-- The code of a failure: its own, or its class; `unknown` is left to the last argument.
abbrev pub error_of : Text → Option ProviderFailure → RunError
error_of unknown none = record { code = unknown; message = none }
error_of unknown (some f) = record {
  code = default unknown (or_else f.code f.failure_class);
  message = f.message;
}
  where
    default : Text → Option Text → Text
    default d none = d
    default d (some t) = t

abbrev pub end_error : Text → TurnEnd → Option ProviderFailure → Option RunError
end_error unknown ended_failed f = some (error_of unknown f)
end_error unknown ended_completed f = none
end_error unknown ended_interrupted f = none

-- `sameTurn`
abbrev pub same_turn : Text → Option RunState → Option RunState
same_turn turn_id none = none
same_turn turn_id (some s) = if same_text s.turn_id turn_id then some s else none

abbrev pub started_of : ℕ → Option RunState → ℕ
started_of at none = at
started_of at (some s) = s.started_at

abbrev pub progress_of : Option RunState → Option ℕ
progress_of none = none
progress_of (some s) = s.progress_at

-- `turnTerminal`
unfoldable pub turn_terminal :
    Text → Text → TurnEnd → Option ProviderFailure → ℕ → Monitor → Monitor
turn_terminal unknown turn_id end failure at m =
    let same = same_turn turn_id m.protocol in
    record m {
      protocol = some (record {
        turn_id = turn_id;
        timestamp = at;
        started_at = started_of at same;
        progress_at = progress_of same;
        status = status_of_end end;
        error = end_error unknown end failure;
      });
    }

-- `read`, with what the transcript's monitor read; a failed read is none.
unfoldable pub read : Option RunState → Monitor → Option RunState
read history m = choose m.protocol (if is_some m.transcript then history else none)
  where
    choose : Option RunState → Option RunState → Option RunState
    choose none h = h
    choose (some live) none = some live
    choose (some live) (some h) =
        if same_text h.turn_id live.turn_id
        then some live
        else if ltb live.timestamp h.timestamp
        then some h
        else some live

pub data MonitorEvent : Type 0 where
  starts : Text → ℕ → MonitorEvent
  progresses : ℕ → MonitorEvent
  ends : Text → TurnEnd → Option ProviderFailure → ℕ → MonitorEvent

unfoldable pub observe_event : Text → MonitorEvent → Monitor → Monitor
observe_event unknown (starts turn_id at) m = turn_started turn_id at m
observe_event unknown (progresses at) m = item_completed at m
observe_event unknown (ends turn_id end failure at) m =
    turn_terminal unknown turn_id end failure at m

unfoldable pub observe_all : Text → List MonitorEvent → Monitor → Monitor
observe_all unknown [] m = m
observe_all unknown (e ∷ es) m = observe_all unknown es (observe_event unknown e m)
