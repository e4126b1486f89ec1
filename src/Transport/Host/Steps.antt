-- ===== src/Transport/Host/Steps.antt =====
-- What every step of the host does to its flags and counters: a relation between the state before,
-- the state after and the effects between, closed under sequences of steps.
use uber_coder.Prelude.{
  ℕ, ◌+◌, ◌≡◌, refl, Bool, true, false, Option, none, some, List, [], ◌∷◌, ◌++◌, ◌⊎◌, inl, inr,
  arith, is_some, if◌then◌else◌, ◌∙◌,
}
use uber_coder.Transport.Host.State.{Host, Effect, ChildExit, writes_stdin, removes_record}
use uber_coder.Transport.Host.Actions.{Action, ◌>>◌, skip, ask, modify, reading, when, with_some}

abbrev pub removals : List Effect → ℕ
removals [] = 0
removals (removes_record ∷ es) = 1 + removals es
removals (_ ∷ es) = removals es

abbrev pub writes : List Effect → ℕ
writes [] = 0
writes (writes_stdin l ∷ es) = 1 + writes es
writes (_ ∷ es) = writes es

removals-append : (es fs : List Effect) → removals (es ++ fs) ≡ removals es + removals fs
removals-append [] fs = omega arith
removals-append (removes_record ∷ es) fs = omega (arith, removals-append es fs)
removals-append (_ ∷ es) fs = removals-append es fs

writes-append : (es fs : List Effect) → writes (es ++ fs) ≡ writes es + writes fs
writes-append [] fs = omega arith
writes-append (writes_stdin l ∷ es) fs = omega (arith, writes-append es fs)
writes-append (_ ∷ es) fs = writes-append es fs

abbrev pub flag : Bool → ℕ
flag true = 1
flag false = 0

-- No line may go to the child any more.
abbrev pub IsShut : Host → Type 0
IsShut h = (h.stdin_ended ≡ true) ⊎ (is_some h.child_exit ≡ true)

pub record Proper (h h' : Host) (es : List Effect) : Type 0 where
  -- The record is removed at the moment of stopping, and then only.
  pub once : flag h.stopped + removals es ≡ flag h'.stopped
  pub counted : h'.lines_written ≡ h.lines_written + writes es
  pub final : (e : ChildExit) → h.child_exit ≡ some e → h'.child_exit ≡ some e
  pub shut : h.stdin_ended ≡ true → h'.stdin_ended ≡ true
  pub silent : IsShut h → writes es ≡ 0

Proper-IsShut : {h h' : Host} {es : List Effect} → Proper h h' es → IsShut h → IsShut h'
Proper-IsShut p (inl e) = inl (p.shut e)
Proper-IsShut {h} {h'} p (inr e) = ended h.child_exit refl e
  where
    ended : (o : Option ChildExit) → h.child_exit ≡ o → is_some h.child_exit ≡ true → IsShut h'
    ended none q f = absurd (ground (arith, q, f))
    ended (some x) q f = inr (ground (arith, p.final x q))

pub Proper-refl : (h : Host) → Proper h h []
Proper-refl h = record {
  once = omega arith;
  counted = omega arith;
  final = λ e p. p;
  shut = λ p. p;
  silent = λ p. refl;
}

pub Proper-trans :
    {h h1 h2 : Host} {es fs : List Effect}
    → Proper h h1 es
    → Proper h1 h2 fs
    → Proper h h2 (es ++ fs)
Proper-trans {es} {fs} p q = record {
  once = omega (arith, p.once, q.once, removals-append es fs);
  counted = omega (arith, p.counted, q.counted, writes-append es fs);
  final = λ e r. q.final e (p.final e r);
  shut = λ r. q.shut (p.shut r);
  silent = λ r. omega (arith, p.silent r, q.silent (Proper-IsShut p r), writes-append es fs);
}

-- A step that is proper from every state.
pub record IsProper (m : Action) : Type 0 where
  pub at : (h : Host) → Proper h (m h).0 (m h).1

pub skip-IsProper : IsProper skip
skip-IsProper = record { at = Proper-refl }

pub >>-IsProper : (m k : Action) → IsProper m → IsProper k → IsProper (m >> k)
>>-IsProper m k p q = record { at = λ h. Proper-trans (p.at h) (q.at (m h).0) }

pub reading-IsProper : (f : Host → Action) → ((h : Host) → IsProper (f h)) → IsProper (reading f)
reading-IsProper f p = record { at = λ h. (p h).at h }

pub when-IsProper : (b : Bool) (m : Action) → IsProper m → IsProper (when b m)
when-IsProper true m p = p
when-IsProper false m p = skip-IsProper

pub if-IsProper :
    (b : Bool) (m k : Action) → IsProper m → IsProper k → IsProper (if b then m else k)
if-IsProper true m k p q = p
if-IsProper false m k p q = q

pub with_some-IsProper {ℓ} :
    {A : Type ℓ} (o : Option A) (k : A → Action)
    → ((a : A) → IsProper (k a))
    → IsProper (with_some o k)
with_some-IsProper none k p = skip-IsProper
with_some-IsProper (some a) k p = p a

-- A change of other fields.
pub modify-IsProper :
    (f : Host → Host)
    → ((h : Host) → (f h).stopped ≡ h.stopped)
    → ((h : Host) → (f h).lines_written ≡ h.lines_written)
    → ((h : Host) → (f h).child_exit ≡ h.child_exit)
    → ((h : Host) → (f h).stdin_ended ≡ h.stdin_ended)
    → IsProper (modify f)
modify-IsProper f a b c d = record {
  at = λ h. record {
    once = ground (arith, a h);
    counted = omega (arith, b h);
    final = λ e p. c h ∙ p;
    shut = λ p. d h ∙ p;
    silent = λ p. refl;
  };
}

pub ask-IsProper : (es : List Effect) → removals es ≡ 0 → writes es ≡ 0 → IsProper (ask es)
ask-IsProper es r w = record {
  at = λ h. record {
    once = omega (arith, r);
    counted = omega (arith, w);
    final = λ e p. p;
    shut = λ p. p;
    silent = λ p. w;
  };
}

pub ruleset proper_rules = (
  skip-IsProper, >>-IsProper, reading-IsProper, when-IsProper, if-IsProper, with_some-IsProper,
  modify-IsProper,
)
