-- ===== src/Transport/Lines/Examples.antt =====
-- The theorems on line splitters, applied to small streams.
use uber_coder.Prelude.{ℕ, ◌≡◌, refl, List, [], ◌∷◌, map, flatten, Text, ◌++◌, true, arith}
use uber_coder.Transport.Lines.{overflow, new_splitter, finish, segment_of}
use uber_coder.Transport.Lines.Chunks.{erase, push_all}
use uber_coder.Transport.Lines.Streams.{push_all-chunks, finish-push_all, push_all-overflow, report}

abbrev utf8 : List ℕ → Text
utf8 bytes = bytes

abbrev lines_sent : List (List ℕ)
lines_sent = (97 ∷ 98 ∷ []) ∷ (99 ∷ []) ∷ []

-- "ab\nc\nd", cut within the first line and behind the second newline.
abbrev chunks : List (List ℕ)
chunks = (97 ∷ []) ∷ (98 ∷ 10 ∷ 99 ∷ 10 ∷ []) ∷ (100 ∷ []) ∷ []

abbrev long_chunks : List (List ℕ)
long_chunks = (97 ∷ 98 ∷ 10 ∷ 99 ∷ 10 ∷ 1 ∷ 2 ∷ []) ∷ (3 ∷ 4 ∷ 5 ∷ []) ∷ []

push_all-chunks_example :
    (map erase (push_all utf8 (new_splitter 4) chunks).1
      ≡ map erase (push_all utf8 (new_splitter 4) (flatten chunks ∷ [])).1)
    × ((push_all utf8 (new_splitter 4) chunks).0.dead
        ≡ (push_all utf8 (new_splitter 4) (flatten chunks ∷ [])).0.dead)
unfolding flatten
push_all-chunks_example = push_all-chunks utf8 4 chunks (flatten chunks ∷ []) refl

finish-push_all_example :
    (map erase (push_all utf8 (new_splitter 4) chunks).1 ≡ map (report utf8 4) lines_sent)
    × ((finish utf8 (push_all utf8 (new_splitter 4) chunks).0).1 ≡ report utf8 4 (100 ∷ []) ∷ [])
unfolding flatten
finish-push_all_example =
    finish-push_all utf8 4 lines_sent (100 ∷ []) chunks
      (((refl, (refl, tt)), omega arith), (((refl, tt), omega arith), tt)) (refl, tt) (omega arith)
      refl

push_all-overflow_example :
    (map erase (push_all utf8 (new_splitter 4) long_chunks).1
      ≡ map (report utf8 4) lines_sent ++ overflow 0 ∷ [])
    × ((push_all utf8 (new_splitter 4) long_chunks).0.dead ≡ true)
unfolding flatten segment_of
push_all-overflow_example =
    push_all-overflow utf8 4 lines_sent (1 ∷ 2 ∷ 3 ∷ 4 ∷ 5 ∷ []) long_chunks
      (((refl, (refl, tt)), omega arith), (((refl, tt), omega arith), tt)) (omega arith) refl
