-- ===== src/Sessions/Queue/Journal.antt =====
-- The journal's list of pending ids agrees with its records, and a cancelled message stays cancelled.
use uber_coder.Prelude.{
  ℕ, ◌+◌, ◌≤◌, ◌≡◌, refl, ap, ◌∙◌, sym, true, false, not, ◌||◌, Option, none, some, List, [], ◌∷◌,
  ◌++◌, filter, ◌==◌, ==_iff, if◌then◌else◌, arith, Bool-cases, inl, inr,
}
use uber_coder.Sessions.Queue.{
  QueuedInput, Meta, new_meta, with_row, is_pending, is_cancelled, advance_revision, pending_ids,
  includes, ids_after, put, Change, puts, advances, run,
}

-- How often an id is listed.
abbrev pub listed : ℕ → List ℕ → ℕ
listed i [] = 0
listed i (j ∷ js) = (if j == i then 1 else 0) + listed i js

-- 1 for the record of a pending message.
unfoldable pub open_input : Option QueuedInput → ℕ
open_input none = 0
open_input (some r) = if is_pending r.state then 1 else 0

listed-append :
    (i j : ℕ) (js : List ℕ) → listed i (js ++ j ∷ []) ≡ listed i js + (if j == i then 1 else 0)
listed-append i j [] = omega arith
listed-append i j (k ∷ js) = omega (arith, listed-append i j js)

includes-listed : (i : ℕ) (js : List ℕ) → includes i js ≡ false → listed i js ≡ 0
includes-listed i [] e = refl
includes-listed i (j ∷ js) e = ground (arith, includes-listed i js)

listed-includes : (i : ℕ) (js : List ℕ) → includes i js ≡ true → 1 ≤ listed i js
listed-includes i [] e = cc
listed-includes i (j ∷ js) e = ground (arith, listed-includes i js)

filter-kept :
    (i r : ℕ) (js : List ℕ) → listed i (filter (λ j. not (j == r) || true) js) ≡ listed i js
filter-kept i r [] = refl
filter-kept i r (j ∷ js) = ground (arith, filter-kept i r js)

filter-gone :
    (i r : ℕ) (js : List ℕ)
    → listed i (filter (λ j. not (j == r) || false) js) ≡ (if r == i then 0 else listed i js)
filter-gone i r [] = ground arith
filter-gone i r (j ∷ js) = ground (arith, filter-gone i r js)

-- The ids behind a `put`: the record's own as its state says, the others as before.
ids_after-listed :
    (i : ℕ) (r : QueuedInput) (ids : List ℕ)
    → listed r.request_id ids ≤ 1
    → listed i (ids_after r ids) ≡ (if r.request_id == i then open_input (some r) else listed i ids)
unfolding ids_after open_input
ids_after-listed i r ids u = elim (Bool-cases (is_pending r.state)) [
  | inl p ↦
      rw p
        (elim (Bool-cases
          (includes r.request_id (filter (λ j. not (j == r.request_id) || true) ids))) [
            | inl n ↦ rw n (
                ground (
                  arith,
                  filter-kept i r.request_id ids,
                  filter-kept r.request_id r.request_id ids,
                  listed-includes r.request_id (filter (λ j. not (j == r.request_id) || true) ids)
                      n,
                  u,
                ))
            | inr n ↦ rw n (
                ground (
                  arith,
                  filter-kept i r.request_id ids,
                  filter-kept r.request_id r.request_id ids,
                  listed-append i r.request_id (filter (λ j. not (j == r.request_id) || true) ids),
                  includes-listed r.request_id (filter (λ j. not (j == r.request_id) || true) ids)
                      n,
                  u,
                ))
          ])
  | inr p ↦ rw p (filter-gone i r.request_id ids)
]

-- Each id is listed once if the record under it is pending, and not at all otherwise.
pub record IsListed (m : Meta) : Type 0 where
  pub agrees : (s i : ℕ) → listed i (pending_ids s m) ≡ open_input (m.inputs s i)

open_input-small : (o : Option QueuedInput) → open_input o ≤ 1
unfolding open_input
open_input-small o = ground arith

put-IsListed : (s : ℕ) (r : QueuedInput) (m : Meta) → IsListed m → IsListed (put s r m)
unfolding put pending_ids
put-IsListed s r m v = elim (Bool-cases (is_cancelled (m.inputs s r.request_id))) [
  | inl e ↦ rw (e, put) v
  | inr e ↦ rw (e, put) (record { agrees = agrees })
]
  where
    own :
        (i : ℕ)
        → (if r.request_id == i then open_input (some r) else listed i (pending_ids s m))
          ≡ open_input (with_row r.request_id (some r) (m.inputs s) i)
    own i = elim (Bool-cases (i == r.request_id)) [
      | inl q ↦ ground (arith, q)
      | inr q ↦ ground (arith, q, v.agrees s i)
    ]

    agrees :
        (t i : ℕ)
        → listed i (
            pending_ids t (record m {
              inputs = with_row s (with_row r.request_id (some r) (m.inputs s)) m.inputs;
              pending = with_row s (some (ids_after r (pending_ids s m))) m.pending;
            }))
          ≡ open_input (with_row s (with_row r.request_id (some r) (m.inputs s)) m.inputs t i)
    agrees t i = elim (Bool-cases (t == s)) [
      | inl q ↦
          rw (q, pending_ids)
            (ids_after-listed i r (pending_ids s m)
                (omega (arith, v.agrees s r.request_id, open_input-small (m.inputs s r.request_id)))
              ∙ own i)
      | inr q ↦ rw (q, pending_ids) (v.agrees t i)
    ]

-- A record that was cancelled is what it was.
put-cancelled :
    (s : ℕ) (r : QueuedInput) (m : Meta) (t i : ℕ)
    → is_cancelled (m.inputs t i) ≡ true
    → (put s r m).inputs t i ≡ m.inputs t i
unfolding put
put-cancelled s r m t i c = elim (Bool-cases (is_cancelled (m.inputs s r.request_id))) [
  | inl e ↦ rw (e, put) refl
  | inr e ↦
      rw (e, put)
        (elim (Bool-cases (t == s)) [
          | inl q ↦ elim (Bool-cases (i == r.request_id)) [
            | inl p ↦ absurd (clash ((==_iff t s).0 q) ((==_iff i r.request_id).0 p) e)
            | inr p ↦ rw (q, p) (ap (λ x. m.inputs x i) (sym ((==_iff t s).0 q)))
          ]
          | inr q ↦ rw q refl
        ])
]
  where
    clash : t ≡ s → i ≡ r.request_id → is_cancelled (m.inputs s r.request_id) ≡ false → ⊥
    clash p q e = absurd (
        ground (
          arith,
          c,
          e,
          ap (λ x. is_cancelled (m.inputs x i)) p,
          ap (λ x. is_cancelled (m.inputs s x)) q,
        ))

-- In any run from the empty journal a request is in its session's list, and that once, exactly
-- if the record under it is pending.
pub run-pending_ids :
    (cs : List Change) (s i : ℕ)
    → listed i (pending_ids s (run cs new_meta)) ≡ open_input ((run cs new_meta).inputs s i)
unfolding run advance_revision new_meta pending_ids open_input
run-pending_ids cs s i = (run-IsListed cs new_meta new_meta-IsListed).agrees s i
  where
    advance-IsListed : (s : ℕ) (m : Meta) → IsListed m → IsListed (advance_revision s m)
    advance-IsListed s m v = record { agrees = v.agrees }

    run-IsListed : (cs : List Change) (m : Meta) → IsListed m → IsListed (run cs m)
    run-IsListed [] m v = v
    run-IsListed (puts s r ∷ cs) m v = run-IsListed cs (put s r m) (put-IsListed s r m v)
    run-IsListed (advances s ∷ cs) m v =
        run-IsListed cs (advance_revision s m) (advance-IsListed s m v)

    new_meta-IsListed : IsListed new_meta
    new_meta-IsListed = record { agrees = λ s i. refl }

-- From a journal in which a message is cancelled, no run changes its record.
pub run-cancelled :
    (cs : List Change) (m : Meta) (s i : ℕ)
    → is_cancelled (m.inputs s i) ≡ true
    → (run cs m).inputs s i ≡ m.inputs s i
unfolding run advance_revision
run-cancelled [] m s i c = refl
run-cancelled (puts t r ∷ cs) m s i c =
    let e = put-cancelled t r m s i c in
    run-cancelled cs (put t r m) s i (ap is_cancelled e ∙ c) ∙ e
run-cancelled (advances t ∷ cs) m s i c = run-cancelled cs (advance_revision t m) s i c
