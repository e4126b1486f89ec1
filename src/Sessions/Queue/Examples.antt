-- ===== src/Sessions/Queue/Examples.antt =====
-- The theorems on the journal, applied to three messages of one session.
use uber_coder.Prelude.{ℕ, ◌≡◌, refl, true, none, List, [], ◌∷◌}
use uber_coder.Sessions.Queue.{
  InputState, queued, submitted, cancelled, QueuedInput, Meta, new_meta, pending_ids, put, Change,
  puts, advances, run, is_cancelled,
}
use uber_coder.Sessions.Queue.Journal.{listed, open_input, run-pending_ids, run-cancelled}

abbrev input : ℕ → InputState → QueuedInput
input id state = record {
  request_id = id;
  text = 97 ∷ [];
  requested_at = [];
  state = state;
  reason = [];
  turn_id = none;
  delivery_mode = none;
  not_sent_since = none;
}

abbrev changes : List Change
changes =
    puts 1 (input 7 queued) ∷ puts 1 (input 8 queued) ∷ puts 1 (input 7 submitted) ∷ advances 1 ∷ []

abbrev abandoned : Meta
abandoned = put 1 (input 8 cancelled) new_meta

run-pending_ids_example :
    listed 8 (pending_ids 1 (run changes new_meta)) ≡ open_input ((run changes new_meta).inputs 1 8)
run-pending_ids_example = run-pending_ids changes 1 8

abandoned-cancelled : is_cancelled (abandoned.inputs 1 8) ≡ true
unfolding put is_cancelled new_meta
abandoned-cancelled = refl

run-cancelled_example : (run changes abandoned).inputs 1 8 ≡ abandoned.inputs 1 8
run-cancelled_example = run-cancelled changes abandoned 1 8 abandoned-cancelled
