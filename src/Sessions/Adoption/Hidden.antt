-- ===== src/Sessions/Adoption/Hidden.antt =====
-- Which conversations the discovery does not show, in words of their own.
use uber_coder.Prelude.{
  ℕ, ◌≡◌, refl, sym, ap, subst, ◌↔◌, ◌⊎◌, inl, inr, true, false, not, ◌||◌, Option, none, some, [],
  ◌∷◌, ◌++◌, Text, any, ◌==◌, ==_iff, same_text, same_text_refl, same_text_eq, codes, starts_with,
  Bool-cases, arith, if◌then◌else◌,
}
use uber_coder.Sessions.Adoption.Visibility.{
  Matched, is_white_space, trim_start, is_text, is_system_invocation_conversation_title,
  is_codex_exec_invocation_conversation, is_conversation_visible_in_discovery,
}

-- A title that has `#` behind blanks, or a run of `codex exec`.
abbrev pub IsHashTitle : Text → Type 0
IsHashTitle title =
    (blanks rest : Text) × (any (λ c. not (is_white_space c)) blanks ≡ false)
    × (title ≡ blanks ++ (codes "#" ++ rest))

abbrev pub IsCodexExec : Matched → Type 0
IsCodexExec m =
    (m.provider ≡ codes "codex")
    × ((m.originator ≡ some (codes "codex_exec")) ⊎ (m.source ≡ some (codes "exec")))

abbrev pub IsHidden : Matched → Type 0
IsHidden m = IsHashTitle m.title ⊎ IsCodexExec m

hash_found : (t : Text) → starts_with (codes "#") (trim_start t) ≡ true → IsHashTitle t
hash_found [] h = cc
hash_found (c ∷ t) h = elim (Bool-cases (is_white_space c)) [
  | inl w ↦
      let inner : starts_with (codes "#") (trim_start t) ≡ true =
        (subst (λ b. starts_with (codes "#") (if b then trim_start t else c ∷ t) ≡ true) w h) in
      let (blanks, rest, a, e) = hash_found t inner in (c ∷ blanks, rest, rw w a, ap (◌∷◌ c) e)
  | inr w ↦
      let here : starts_with (codes "#") (c ∷ t) ≡ true =
        (subst (λ b. starts_with (codes "#") (if b then trim_start t else c ∷ t) ≡ true) w h) in
      ([], t, refl, first c here)
]
  where
    first : (c : ℕ) → starts_with (codes "#") (c ∷ t) ≡ true → c ∷ t ≡ codes "#" ++ t
    first c k = elim (Bool-cases (35 == c)) [
      | inl s ↦ ap (λ d. d ∷ t) (sym ((==_iff 35 c).0 s))
      | inr s ↦ absurd (ground (arith, k, s))
    ]

hash_start :
    (blanks rest : Text)
    → any (λ c. not (is_white_space c)) blanks ≡ false
    → starts_with (codes "#") (trim_start (blanks ++ (codes "#" ++ rest))) ≡ true
hash_start [] rest h = refl
hash_start (b ∷ blanks) rest h = elim (Bool-cases (is_white_space b)) [
  | inl w ↦
      let others : any (λ c. not (is_white_space c)) blanks ≡ false =
        (subst (λ x. not x || any (λ c. not (is_white_space c)) blanks ≡ false) w h) in
      rw w (hash_start blanks rest others)
  | inr w ↦ absurd_of (subst (λ x. not x || any (λ c. not (is_white_space c)) blanks ≡ false) w h)
]
  where
    absurd_of :
        true ≡ false
        → starts_with (codes "#") (trim_start (b ∷ (blanks ++ (codes "#" ++ rest)))) ≡ true
    absurd_of e = cc

is_text_iff : (t : Text) (o : Option Text) → (is_text t o ≡ true) ↔ (o ≡ some t)
is_text_iff t none = (λ h. cc, λ h. cc)
is_text_iff t (some u) = (λ h. ap (λ x. some x) (sym (same_text_eq t u h)), λ e. back (cc))
  where
    back : t ≡ u → same_text t u ≡ true
    back e = subst (λ x. same_text t x ≡ true) e (same_text_refl t)

codex_iff : (m : Matched) → (is_codex_exec_invocation_conversation m ≡ true) ↔ IsCodexExec m
unfolding is_codex_exec_invocation_conversation
codex_iff m = (there, back)
  where
    there : is_codex_exec_invocation_conversation m ≡ true → IsCodexExec m
    there h = elim (Bool-cases (same_text m.provider (codes "codex"))) [
      | inl s ↦ (
        same_text_eq m.provider (codes "codex") s,
        elim (Bool-cases (is_text (codes "codex_exec") m.originator)) [
          | inl o ↦ inl ((is_text_iff (codes "codex_exec") m.originator).0 o)
          | inr o ↦ inr ((is_text_iff (codes "exec") m.source).0 (ground (arith, h, s, o)))
        ],
      )
      | inr s ↦ absurd (ground (arith, h, s))
    ]

    back : IsCodexExec m → is_codex_exec_invocation_conversation m ≡ true
    back (p, o) =
        let s : same_text m.provider (codes "codex") ≡ true =
          (subst (λ x. same_text x (codes "codex") ≡ true) (sym p) refl) in
        elim o [
          | inl e ↦
              let t = (is_text_iff (codes "codex_exec") m.originator).1 e in ground (arith, s, t)
          | inr e ↦ let t = (is_text_iff (codes "exec") m.source).1 e in ground (arith, s, t)
        ]

pub visible_iff : (m : Matched) → (is_conversation_visible_in_discovery m ≡ false) ↔ IsHidden m
unfolding is_conversation_visible_in_discovery is_system_invocation_conversation_title
visible_iff m = (there, back)
  where
    there : is_conversation_visible_in_discovery m ≡ false → IsHidden m
    there h = elim (Bool-cases (is_system_invocation_conversation_title m.title)) [
      | inl s ↦ inl (hash_found m.title s)
      | inr s ↦ inr ((codex_iff m).0 (ground (arith, h, s)))
    ]

    back : IsHidden m → is_conversation_visible_in_discovery m ≡ false
    back (inl (blanks, rest, a, e)) =
        let s : is_system_invocation_conversation_title m.title ≡ true =
          (subst (λ t. starts_with (codes "#") (trim_start t) ≡ true) (sym e)
            (hash_start blanks rest a)) in
        ground (arith, s)
    back (inr x) = let s = (codex_iff m).1 x in ground (arith, s)
