-- ===== src/Transport/Replay/Examples.antt =====
-- The theorems on replay buffers, applied to a buffer of eight bytes.
use uber_coder.Prelude.{◌≡◌, List, [], ◌∷◌, length, Text, arith}
use uber_coder.Transport.Replay.{ReplayBuffer, new_buffer, first_seq, push, since}
use uber_coder.Transport.Replay.History.{
  Keeps, Answers, new_buffer-Keeps, push-Keeps, since-Answers,
}
use uber_coder.Transport.Replay.Bounds.{IsBounded, new_buffer-IsBounded, push-IsBounded}

abbrev small : ReplayBuffer
small = new_buffer 8 1000

abbrev one : ReplayBuffer
one = (push length (1 ∷ 2 ∷ 3 ∷ 4 ∷ 5 ∷ []) 10 small).0

-- The second line pushes the first one out.
abbrev two : ReplayBuffer
two = (push length (6 ∷ 7 ∷ 8 ∷ 9 ∷ []) 20 one).0

abbrev history : List Text
history = (1 ∷ 2 ∷ 3 ∷ 4 ∷ 5 ∷ []) ∷ (6 ∷ 7 ∷ 8 ∷ 9 ∷ []) ∷ []

one-Keeps : Keeps ((1 ∷ 2 ∷ 3 ∷ 4 ∷ 5 ∷ []) ∷ []) one
one-Keeps = (push-Keeps length (1 ∷ 2 ∷ 3 ∷ 4 ∷ 5 ∷ []) 10 [] small (new_buffer-Keeps 8 1000)).0

push-Keeps_example : Keeps history two × ((push length (6 ∷ 7 ∷ 8 ∷ 9 ∷ []) 20 one).1 ≡ 2)
push-Keeps_example =
    push-Keeps length (6 ∷ 7 ∷ 8 ∷ 9 ∷ []) 20 ((1 ∷ 2 ∷ 3 ∷ 4 ∷ 5 ∷ []) ∷ []) one one-Keeps

since-Answers_example :
    Answers history 0 (first_seq (since 0 30 two).0) (since 0 30 two).1
    × Keeps history (since 0 30 two).0
since-Answers_example =
    since-Answers 0 30 history two
      (push-Keeps length (6 ∷ 7 ∷ 8 ∷ 9 ∷ []) 20 ((1 ∷ 2 ∷ 3 ∷ 4 ∷ 5 ∷ []) ∷ []) one one-Keeps).0

one-IsBounded : IsBounded 10 one
one-IsBounded =
    push-IsBounded length (1 ∷ 2 ∷ 3 ∷ 4 ∷ 5 ∷ []) 10 0 small (new_buffer-IsBounded 8 1000)
      (omega arith)

push-IsBounded_example : IsBounded 20 two
push-IsBounded_example =
    push-IsBounded length (6 ∷ 7 ∷ 8 ∷ 9 ∷ []) 20 10 one one-IsBounded (omega arith)
