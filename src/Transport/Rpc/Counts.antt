-- ===== src/Transport/Rpc/Counts.antt =====
-- How often a request is sent and settled, against the table of what is pending.
use uber_coder.Prelude.{
  ℕ, ◌+◌, ◌≤◌, ◌<◌, ◌≡◌, refl, ap, ◌∙◌, sym, Bool, true, false, List, [], ◌∷◌, ◌++◌, arith, is_some,
  ◌==◌,
}
use uber_coder.Transport.Rpc.State.{Client, Effect, request, writes, settles, get, delete}

abbrev pub one_if : Bool → ℕ
one_if true = 1
one_if false = 0

-- Request frames with this id, and settlements of it.
abbrev pub sent_in : ℕ → Effect → ℕ
sent_in i (writes (request j m p)) = one_if (j == i)
sent_in i _ = 0

abbrev pub settled_in : ℕ → Effect → ℕ
settled_in i (settles j o) = one_if (j == i)
settled_in i _ = 0

abbrev pub sent : ℕ → List Effect → ℕ
sent i [] = 0
sent i (e ∷ es) = sent_in i e + sent i es

abbrev pub settled : ℕ → List Effect → ℕ
settled i [] = 0
settled i (e ∷ es) = settled_in i e + settled i es

-- Entries of a table under this key.
abbrev pub entries_of {ℓ} : {A : Type ℓ} → ℕ → List (ℕ × A) → ℕ
entries_of i [] = 0
entries_of i ((j, a) ∷ ps) = one_if (j == i) + entries_of i ps

pub sent-append : (i : ℕ) (es fs : List Effect) → sent i (es ++ fs) ≡ sent i es + sent i fs
sent-append i [] fs = omega arith
sent-append i (e ∷ es) fs = omega (arith, sent-append i es fs)

pub settled-append :
    (i : ℕ) (es fs : List Effect) → settled i (es ++ fs) ≡ settled i es + settled i fs
settled-append i [] fs = omega arith
settled-append i (e ∷ es) fs = omega (arith, settled-append i es fs)

pub entries_of-delete_same :
    {A : Type 0} (i : ℕ) (ps : List (ℕ × A)) → entries_of i (delete i ps) ≡ 0
entries_of-delete_same i [] = refl
entries_of-delete_same i ((j, a) ∷ ps) = ground (arith, entries_of-delete_same i ps)

pub entries_of-delete_other :
    {A : Type 0} (i k : ℕ) (ps : List (ℕ × A))
    → (k == i) ≡ false
    → entries_of i (delete k ps) ≡ entries_of i ps
entries_of-delete_other i k [] n = refl
entries_of-delete_other i k ((j, a) ∷ ps) n = ground (arith, entries_of-delete_other i k ps n)

pub entries_of-get :
    {A : Type 0} (i : ℕ) (ps : List (ℕ × A)) → is_some (get i ps) ≡ true → 1 ≤ entries_of i ps
entries_of-get i [] e = cc
entries_of-get i ((j, a) ∷ ps) e = ground (arith, entries_of-get i ps)

-- What is known of the id `i` after `a` frames and `s` settlements.
pub record Tracked (i : ℕ) (c : Client) (a s : ℕ) : Type 0 where
  pub balance : s + entries_of i c.pending ≡ a
  pub once : a ≤ 1
  pub fresh : c.last_id < i → a ≡ 0
  pub closed : is_some c.finished ≡ true → c.pending ≡ []

-- A step that keeps it.
abbrev pub Tracks : ℕ → Client → Client × List Effect → Type 0
Tracks i c r = (a s : ℕ) → Tracked i c a s → Tracked i r.0 (a + sent i r.1) (s + settled i r.1)

-- A step that touches no request.
pub record Same (c c' : Client) : Type 0 where
  pub ids : c'.last_id ≡ c.last_id
  pub table : c'.pending ≡ c.pending
  pub over : c'.finished ≡ c.finished

pub Same-Tracks :
    (i : ℕ) (c : Client) (r : Client × List Effect)
    → Same c r.0
    → sent i r.1 ≡ 0
    → settled i r.1 ≡ 0
    → Tracks i c r
Same-Tracks i c r m e f a s t = record {
  balance = omega (arith, t.balance, ap (entries_of i) m.table, e, f);
  once = omega (arith, t.once, e);
  fresh = λ l. omega (arith, t.fresh (omega (arith, m.ids)), e);
  closed = λ h. m.table ∙ t.closed (sym (ap is_some m.over) ∙ h);
}
