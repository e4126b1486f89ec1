-- ===== src/Sessions/Timeline/Index/Search.antt =====
-- The index finds what a search of the whole transcript finds.
use uber_coder.Prelude.{
  ℕ, ◌+◌, ◌-◌, ◌≡◌, refl, ap, sym, ◌∙◌, Bool, true, false, ◌&&◌, ◌||◌, Option, none, some, List, [],
  ◌∷◌, ◌++◌, any, ◌==◌, if◌then◌else◌, arith, any-append, any-or, any-same, Bool-cases, inl, inr,
  ◌⊎◌, ==_iff,
}
use uber_coder.Sessions.Timeline.{
  role_number, Message, Reading, Comparable, to_comparable_message, timestamp_bucket,
  comparable_texts_match, within_ms, times_are_near, live_transcript_duplicate_window_ms,
}
use uber_coder.Sessions.Timeline.Index.{
  list_at, append_at, buckets_of, put_buckets, TranscriptIndex, empty_index, add_at, add_comparable,
  candidates_at, comparable_is_in, build_from, build_transcript_message_index, bucket_before,
  get_transcript_candidates, live_message_is_in_transcript,
}

module _ {A : Type 0} where
  list_at-append_at :
      (p : A → Bool) (j k : ℕ) (a : A) (m : List (ℕ × List A))
      → any p (list_at j (append_at k a m)) ≡ any p (list_at j m) || ((k == j) && p a)
  list_at-append_at p j k a [] = ground arith
  list_at-append_at p j k a ((i, xs) ∷ m) = elim (Bool-cases (i == k)) [
    | inl e ↦ rw e (elim (Bool-cases (i == j)) [
      | inl f ↦ rw f (any-append p xs (a ∷ []) ∙ ground (arith, e, f))
      | inr f ↦ rw f (ground (arith, e, f))
    ])
    | inr e ↦ rw e (elim (Bool-cases (i == j)) [
      | inl f ↦ rw f (ground (arith, e, f))
      | inr f ↦ rw f (list_at-append_at p j k a m)
    ])
  ]

list_at-put_buckets :
    (j k : ℕ) (bs : List (ℕ × List Comparable)) (m : List (ℕ × List (ℕ × List Comparable)))
    → buckets_of j (put_buckets k bs m) ≡ (if k == j then bs else buckets_of j m)
list_at-put_buckets j k bs [] = ground arith
list_at-put_buckets j k bs ((i, xs) ∷ m) = ground (arith, list_at-put_buckets j k bs m)

-- The messages in one bucket of one role, and the untimed ones of a role.
abbrev lookup : TranscriptIndex → ℕ → ℕ → List Comparable
lookup index rn b = list_at b (buckets_of rn index.bucketed_by_role)

abbrev at_bucket : ℕ → Option ℕ → Bool
at_bucket b none = false
at_bucket b (some t) = timestamp_bucket t == b

abbrev in_bucket : ℕ → ℕ → Comparable → Bool
in_bucket rn b c = (role_number c.role == rn) && at_bucket b c.timestamp_ms

abbrev no_time : Option ℕ → Bool
no_time none = true
no_time (some t) = false

abbrev is_untimed : ℕ → Comparable → Bool
is_untimed rn c = (role_number c.role == rn) && no_time c.timestamp_ms

add_at-lookup :
    (p : Comparable → Bool) (o : Option ℕ) (c : Comparable) (index : TranscriptIndex) (rn b : ℕ)
    → any p (lookup (add_at o c index) rn b)
      ≡ any p (lookup index rn b) || (((role_number c.role == rn) && at_bucket b o) && p c)
unfolding add_at
add_at-lookup p none c index rn b = ground arith
add_at-lookup p (some t) c index rn b =
    let old = buckets_of (role_number c.role) index.bucketed_by_role in
    ap (λ bs. any p (list_at b bs))
      (list_at-put_buckets rn (role_number c.role) (append_at (timestamp_bucket t) c old)
        index.bucketed_by_role)
    ∙ elim (Bool-cases (role_number c.role == rn)) [
      | inl q ↦ rw q (
          list_at-append_at p b (timestamp_bucket t) c old
          ∙ ap
              (λ n.
                any p (list_at b (buckets_of n index.bucketed_by_role))
                || ((timestamp_bucket t == b) && p c))
              ((==_iff (role_number c.role) rn).0 q))
      | inr q ↦ rw q (ground arith)
    ]

add_at-untimed :
    (p : Comparable → Bool) (o : Option ℕ) (c : Comparable) (index : TranscriptIndex) (rn : ℕ)
    → any p (list_at rn (add_at o c index).untimed_by_role)
      ≡ any p (list_at rn index.untimed_by_role)
        || (((role_number c.role == rn) && no_time o) && p c)
unfolding add_at
add_at-untimed p (some t) c index rn = ground arith
add_at-untimed p none c index rn =
    list_at-append_at p rn (role_number c.role) c index.untimed_by_role ∙ ground arith

-- A test of a message by what is comparable in it.
abbrev pub test_some : (Comparable → Bool) → Option Comparable → Bool
test_some p none = false
test_some p (some c) = p c

abbrev pub test : Reading → (Comparable → Bool) → Message → Bool
test r p m = test_some p (to_comparable_message r m)

add_comparable-lookup :
    (p : Comparable → Bool) (o : Option Comparable) (index : TranscriptIndex) (rn b : ℕ)
    → any p (lookup (add_comparable o index) rn b)
      ≡ any p (lookup index rn b) || test_some (λ c. in_bucket rn b c && p c) o
unfolding add_comparable
add_comparable-lookup p none index rn b = ground arith
add_comparable-lookup p (some c) index rn b = add_at-lookup p c.timestamp_ms c index rn b

add_comparable-untimed :
    (p : Comparable → Bool) (o : Option Comparable) (index : TranscriptIndex) (rn : ℕ)
    → any p (list_at rn (add_comparable o index).untimed_by_role)
      ≡ any p (list_at rn index.untimed_by_role) || test_some (λ c. is_untimed rn c && p c) o
unfolding add_comparable
add_comparable-untimed p none index rn = ground arith
add_comparable-untimed p (some c) index rn = add_at-untimed p c.timestamp_ms c index rn

or_assoc : (a b c : Bool) → (a || b) || c ≡ a || (b || c)
or_assoc true b c = refl
or_assoc false b c = refl

build_from-lookup :
    (r : Reading) (p : Comparable → Bool) (ms : List Message) (index : TranscriptIndex) (rn b : ℕ)
    → any p (lookup (build_from r ms index) rn b)
      ≡ any p (lookup index rn b) || any (test r λ c. in_bucket rn b c && p c) ms
unfolding build_from
build_from-lookup r p [] index rn b = ground arith
build_from-lookup r p (m ∷ ms) index rn b =
    build_from-lookup r p ms (add_comparable (to_comparable_message r m) index) rn b
    ∙ ap (λ x. x || any (test r λ c. in_bucket rn b c && p c) ms)
        (add_comparable-lookup p (to_comparable_message r m) index rn b)
    ∙ or_assoc (any p (lookup index rn b)) (test r (λ c. in_bucket rn b c && p c) m)
        (any (test r λ c. in_bucket rn b c && p c) ms)

build_from-untimed :
    (r : Reading) (p : Comparable → Bool) (ms : List Message) (index : TranscriptIndex) (rn : ℕ)
    → any p (list_at rn (build_from r ms index).untimed_by_role)
      ≡ any p (list_at rn index.untimed_by_role) || any (test r λ c. is_untimed rn c && p c) ms
unfolding build_from
build_from-untimed r p [] index rn = ground arith
build_from-untimed r p (m ∷ ms) index rn =
    build_from-untimed r p ms (add_comparable (to_comparable_message r m) index) rn
    ∙ ap (λ x. x || any (test r λ c. is_untimed rn c && p c) ms)
        (add_comparable-untimed p (to_comparable_message r m) index rn)
    ∙ or_assoc (any p (list_at rn index.untimed_by_role)) (test r (λ c. is_untimed rn c && p c) m)
        (any (test r λ c. is_untimed rn c && p c) ms)

-- Times in one bucket, or in neighbouring ones.
bucket_near :
    (a b : ℕ)
    → within_ms live_transcript_duplicate_window_ms a b ≡ true
    → ((timestamp_bucket b ≡ timestamp_bucket a)
        ⊎ (timestamp_bucket b ≡ timestamp_bucket a + 1)
        ⊎ (timestamp_bucket b + 1 ≡ timestamp_bucket a))
bucket_near a b h = ground arith

-- Of two messages: the live one may be a copy of the other by its time.
abbrev pub times_allow : Option ℕ → Option ℕ → Bool
times_allow a none = true
times_allow none (some b) = false
times_allow (some a) (some b) = within_ms live_transcript_duplicate_window_ms a b

abbrev copy_at : ℕ → Option ℕ → (Comparable → Bool) → Comparable → Bool
copy_at rn o texts c = (role_number c.role == rn) && times_allow o c.timestamp_ms && texts c

-- The live message is a copy of the other.
abbrev pub is_copy : Comparable → Comparable → Bool
is_copy live c =
    (role_number c.role == role_number live.role)
    && times_allow live.timestamp_ms c.timestamp_ms
    && comparable_texts_match live c

-- The search of a transcript for one message, without an index.
abbrev pub has_copy : Reading → Option Comparable → List Message → Bool
has_copy r none ms = false
has_copy r (some live) ms = any (test r (is_copy live)) ms

abbrev match_at : Option ℕ → (Comparable → Bool) → Comparable → Bool
match_at o texts c = times_are_near o c.timestamp_ms && texts c

abbrev before_test : ℕ → ℕ → Comparable → Bool
before_test rn b c =
    (role_number c.role == rn) && (if b == 0 then false else at_bucket (b - 1) c.timestamp_ms)

-- What the buckets of a live message let through is what may be a copy by its time.
buckets-copy :
    (same : Bool) (t : ℕ) (o : Option ℕ) (texts : Bool)
    → let b = timestamp_bucket t in
      ((same && (if b == 0 then false else at_bucket (b - 1) o))
          && (times_are_near (some t) o && texts))
        || (((same && at_bucket b o) && (times_are_near (some t) o && texts))
            || (((same && at_bucket (b + 1) o) && (times_are_near (some t) o && texts))
                || ((same && no_time o) && (times_are_near (some t) o && texts))))
      ≡ same && times_allow (some t) o && texts
buckets-copy same t none texts = ground arith
buckets-copy same t (some u) texts =
    elim (Bool-cases (within_ms live_transcript_duplicate_window_ms t u)) [
      | inl n ↦ rw n (ground (arith, bucket_near t u n))
      | inr n ↦ rw n (ground arith)
    ]

test-same :
    (r : Reading) (p q : Comparable → Bool) (ms : List Message)
    → ((c : Comparable) → p c ≡ q c)
    → any (test r p) ms ≡ any (test r q) ms
test-same r p q ms e = any-same (test r p) (test r q) ms (λ m. each (to_comparable_message r m))
  where
    each : (o : Option Comparable) → test_some p o ≡ test_some q o
    each none = refl
    each (some c) = e c

any-false : (r : Reading) (ms : List Message) → any (test r λ c. false) ms ≡ false
any-false r [] = refl
any-false r (m ∷ ms) = each (to_comparable_message r m) (any-false r ms)
  where
    each :
        (o : Option Comparable)
        → any (test r λ c. false) ms ≡ false
        → test_some (λ c. false) o || any (test r λ c. false) ms ≡ false
    each none h = h
    each (some c) h = h

bucket_before-first :
    (b : ℕ) (m : List (ℕ × List Comparable)) → (b == 0) ≡ true → bucket_before b m ≡ []
unfolding bucket_before
bucket_before-first b m e = ground (arith, e)

bucket_before-later :
    (b : ℕ) (m : List (ℕ × List Comparable))
    → (b == 0) ≡ false
    → bucket_before b m ≡ list_at (b - 1) m
unfolding bucket_before
bucket_before-later b m e = rw e refl

module _ (r : Reading) (ms : List Message) where
  built : TranscriptIndex
  built = build_transcript_message_index r ms

  built-lookup :
      (p : Comparable → Bool) (rn b : ℕ)
      → any p (lookup built rn b) ≡ any (test r λ c. in_bucket rn b c && p c) ms
  unfolding built build_transcript_message_index empty_index
  built-lookup p rn b = build_from-lookup r p ms empty_index rn b

  built-untimed :
      (p : Comparable → Bool) (rn : ℕ)
      → any p (list_at rn built.untimed_by_role) ≡ any (test r λ c. is_untimed rn c && p c) ms
  unfolding built build_transcript_message_index empty_index
  built-untimed p rn = build_from-untimed r p ms empty_index rn

  built-before :
      (p : Comparable → Bool) (rn b : ℕ)
      → any p (bucket_before b (buckets_of rn built.bucketed_by_role))
        ≡ any (test r λ c. before_test rn b c && p c) ms
  built-before p rn b = elim (Bool-cases (b == 0)) [
    | inl e ↦
        ap (any p) (bucket_before-first b (buckets_of rn built.bucketed_by_role) e)
        ∙ sym (
            test-same r (λ c. before_test rn b c && p c) (λ c. false) ms (λ c. ground (arith, e))
            ∙ any-false r ms)
    | inr e ↦
        ap (any p) (bucket_before-later b (buckets_of rn built.bucketed_by_role) e)
        ∙ built-lookup p rn (b - 1)
        ∙ test-same r (λ c. in_bucket rn (b - 1) c && p c) (λ c. before_test rn b c && p c) ms
            (λ c. ground (arith, e))
  ]

  -- Four searches are one.
  any-four :
      (p1 p2 p3 p4 q : Comparable → Bool)
      → ((c : Comparable) → p1 c || (p2 c || (p3 c || p4 c)) ≡ q c)
      → any (test r p1) ms || (any (test r p2) ms || (any (test r p3) ms || any (test r p4) ms))
        ≡ any (test r q) ms
  any-four p1 p2 p3 p4 q e =
      ap (λ x. any (test r p1) ms || (any (test r p2) ms || x)) (any-or (test r p3) (test r p4) ms)
      ∙ ap (λ x. any (test r p1) ms || x) (any-or (test r p2) (λ m. test r p3 m || test r p4 m) ms)
      ∙ any-or (test r p1) (λ m. test r p2 m || (test r p3 m || test r p4 m)) ms
      ∙ any-same (λ m. test r p1 m || (test r p2 m || (test r p3 m || test r p4 m))) (test r q) ms
          (λ m. each (to_comparable_message r m))
    where
      each :
          (o : Option Comparable)
          → test_some p1 o || (test_some p2 o || (test_some p3 o || test_some p4 o)) ≡ test_some q o
      each none = refl
      each (some c) = e c

  candidates-copy :
      (o : Option ℕ) (rn : ℕ) (texts : Comparable → Bool)
      → any (match_at o texts) (
          candidates_at o (buckets_of rn built.bucketed_by_role) (list_at rn built.untimed_by_role))
        ≡ any (test r (copy_at rn o texts)) ms
  unfolding candidates_at
  candidates-copy none rn texts =
      built-untimed (match_at none texts) rn
      ∙ test-same r (λ c. is_untimed rn c && match_at none texts c) (copy_at rn none texts) ms
          (λ c. untimed c c.timestamp_ms)
    where
      untimed :
          (c : Comparable) (o : Option ℕ)
          → ((role_number c.role == rn) && no_time o) && (times_are_near none o && texts c)
            ≡ (role_number c.role == rn) && times_allow none o && texts c
      untimed c none = ground arith
      untimed c (some t) = ground arith
  candidates-copy (some t) rn texts =
      let b = timestamp_bucket t in
      let p = match_at (some t) texts in
      let buckets = buckets_of rn built.bucketed_by_role in
      any-append p (bucket_before b buckets)
        (list_at b buckets ++ (list_at (b + 1) buckets ++ list_at rn built.untimed_by_role))
      ∙ ap (λ x. any p (bucket_before b buckets) || x)
          (any-append p (list_at b buckets)
            (list_at (b + 1) buckets ++ list_at rn built.untimed_by_role))
      ∙ ap (λ x. any p (bucket_before b buckets) || (any p (list_at b buckets) || x))
          (any-append p (list_at (b + 1) buckets) (list_at rn built.untimed_by_role))
      ∙ rw (built-before p rn b, built-lookup p rn b, built-lookup p rn (b + 1), built-untimed p rn)
          (any-four (λ c. before_test rn b c && p c) (λ c. in_bucket rn b c && p c)
            (λ c. in_bucket rn (b + 1) c && p c) (λ c. is_untimed rn c && p c)
            (copy_at rn (some t) texts)
            (λ c. buckets-copy (role_number c.role == rn) t c.timestamp_ms (texts c)))

  -- The index of a transcript finds a copy of a live message exactly if a search of the whole
  -- transcript finds one.
  pub live_message_is_in_transcript-has_copy :
      (live : Message)
      → live_message_is_in_transcript r live (build_transcript_message_index r ms)
        ≡ has_copy r (to_comparable_message r live) ms
  unfolding live_message_is_in_transcript comparable_is_in get_transcript_candidates built
  live_message_is_in_transcript-has_copy live = each (to_comparable_message r live)
    where
      each :
          (o : Option Comparable)
          → comparable_is_in o (build_transcript_message_index r ms) ≡ has_copy r o ms
      each none = refl
      each (some l) = candidates-copy l.timestamp_ms (role_number l.role) (comparable_texts_match l)
