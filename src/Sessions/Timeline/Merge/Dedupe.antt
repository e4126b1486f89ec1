-- ===== src/Sessions/Timeline/Merge/Dedupe.antt =====
-- Removal of duplicates by groups is removal of what is the same as an earlier message.
use uber_coder.Prelude.{
  ◌≡◌, refl, ap, sym, ◌∙◌, Bool, true, false, ◌&&◌, ◌||◌, List, [], ◌∷◌, ◌++◌, any, ◌==◌, ==_iff,
  if◌then◌else◌, arith, Bool-cases, inl, inr, Text, same_text, any-append,
}
use uber_coder.Sessions.Timeline.{Message, Reading}
use uber_coder.Sessions.Timeline.Merge.{
  Key, key_of, same_key, group_at, add_to_group, same_trimmed, dedupe_from,
  dedupe_timeline_messages,
}

same_text-equal : (a b : Text) → same_text a b ≡ true → a ≡ b
same_text-equal [] [] e = refl
same_text-equal [] (y ∷ b) e = cc
same_text-equal (x ∷ a) [] e = cc
same_text-equal (x ∷ a) (y ∷ b) e = elim (Bool-cases (x == y)) [
  | inl q ↦
      ap (λ n. n ∷ a) ((==_iff x y).0 q) ∙ ap (◌∷◌ y) (same_text-equal a b (ground (arith, e, q)))
  | inr q ↦ absurd (ground (arith, e, q))
]

same_key-equal : (a b : Key) → same_key a b ≡ true → a ≡ b
same_key-equal a b e = λ i. record {
  source = (==_iff a.source b.source).0 (ground (arith, e)) i;
  timestamp = same_text-equal a.timestamp b.timestamp (ground (arith, e)) i;
  role = (==_iff a.role b.role).0 (ground (arith, e)) i;
}

group_at-add_to_group :
    (p : Message → Bool) (j k : Key) (m : Message) (groups : List (Key × List Message))
    → any p (group_at j (add_to_group k m groups))
      ≡ any p (group_at j groups) || (same_key k j && p m)
group_at-add_to_group p j k m [] = elim (Bool-cases (same_key k j)) [
  | inl e ↦ rw e (ground arith)
  | inr e ↦ rw e refl
]
group_at-add_to_group p j k m ((i, ms) ∷ groups) = elim (Bool-cases (same_key i k)) [
  | inl e ↦ rw e (elim (Bool-cases (same_key i j)) [
    | inl f ↦
        rw (f, sym (ap (λ x. same_key x j) (same_key-equal i k e)) ∙ f)
          (any-append p ms (m ∷ []) ∙ ground arith)
    | inr f ↦ rw (f, sym (ap (λ x. same_key x j) (same_key-equal i k e)) ∙ f) (ground arith)
  ])
  | inr e ↦ rw e (elim (Bool-cases (same_key i j)) [
    | inl f ↦ rw f (never f e)
    | inr f ↦ rw f (group_at-add_to_group p j k m groups)
  ])
]
  where
    never :
        same_key i j ≡ true → same_key i k ≡ false → any p ms ≡ any p ms || (same_key k j && p m)
    never f e = elim (Bool-cases (same_key k j)) [
      | inl g ↦ absurd (ground (arith, e, f, ap (same_key i) (same_key-equal k j g)))
      | inr g ↦ rw g (ground arith)
    ]

-- Two messages that share source, time, role and trimmed text.
abbrev pub same_message : Reading → Message → Message → Bool
same_message r m x = same_key (key_of x) (key_of m) && same_trimmed r m x

-- A message stays if none that stayed before it is the same.
abbrev pub keep_first : Reading → List Message → List Message → List Message
keep_first r seen [] = []
keep_first r seen (m ∷ ms) =
    let kept = m ∷ keep_first r (seen ++ m ∷ []) ms in
    let skipped = keep_first r seen ms in if any (same_message r m) seen then skipped else kept

-- The groups hold the messages seen, by their keys.
record AreGroups (groups : List (Key × List Message)) (seen : List Message) : Type 0 where
  found :
      (p : Message → Bool) (k : Key)
      → any p (group_at k groups) ≡ any (λ x. same_key (key_of x) k && p x) seen

dedupe_from-keep_first :
    (r : Reading) (groups : List (Key × List Message)) (seen ms : List Message)
    → AreGroups groups seen
    → dedupe_from r groups ms ≡ keep_first r seen ms
unfolding dedupe_from
dedupe_from-keep_first r groups seen [] g = refl
dedupe_from-keep_first r groups seen (m ∷ ms) g = elim (Bool-cases (any (same_message r m) seen)) [
  | inl e ↦
      rw (g.found (same_trimmed r m) (key_of m), e) (dedupe_from-keep_first r groups seen ms g)
  | inr e ↦
      rw (g.found (same_trimmed r m) (key_of m), e)
        (ap (◌∷◌ m)
          (dedupe_from-keep_first r (add_to_group (key_of m) m groups) (seen ++ m ∷ []) ms added))
]
  where
    added : AreGroups (add_to_group (key_of m) m groups) (seen ++ m ∷ [])
    added = record {
      found = λ p k.
          group_at-add_to_group p k (key_of m) m groups
          ∙ ap (λ b. b || (same_key (key_of m) k && p m)) (g.found p k)
          ∙ sym (
              any-append (λ x. same_key (key_of x) k && p x) seen (m ∷ [])
              ∙ last (any (λ x. same_key (key_of x) k && p x) seen) (same_key (key_of m) k && p m));
    }
      where
        last : (a b : Bool) → a || (b || false) ≡ a || b
        last true b = refl
        last false true = refl
        last false false = refl

-- The removal by groups leaves the messages that are not the same, in source, time, role and trimmed
-- text, as one that stayed before them, in their order.
pub dedupe_timeline_messages-keep_first :
    (r : Reading) (ms : List Message) → dedupe_timeline_messages r ms ≡ keep_first r [] ms
unfolding dedupe_timeline_messages
dedupe_timeline_messages-keep_first r ms =
    dedupe_from-keep_first r [] [] ms (record { found = λ p k. refl })
