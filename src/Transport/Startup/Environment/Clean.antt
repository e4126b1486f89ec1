-- ===== src/Transport/Startup/Environment/Clean.antt =====
-- What a host's environment has and what it has not, name by name.
use uber_coder.Prelude.{
  ◌≡◌, refl, sym, ap, subst, ◌↔◌, ◌⊎◌, inl, inr, Bool, true, false, ◌||◌, Option, none, some, List,
  [], ◌∷◌, ◌++◌, Text, any, same_text, same_text_refl, same_text_eq, starts_with, codes, Bool-cases,
  ==_iff, arith,
}
use uber_coder.Transport.Startup.Environment.{
  scrubbed_env_names, scrubbed_env_prefixes, host_env_names, includes_name, has_prefix,
  is_scrubbed_env, is_host_env, host_environment, scrub_environment, IsIn, IsHostName,
  IsScrubbedName,
}

includes_name-IsIn :
    (names : List Text) (name : Text) → includes_name names name ≡ true → IsIn name names
includes_name-IsIn [] name h = cc
includes_name-IsIn (n ∷ names) name h = elim (Bool-cases (same_text n name)) [
  | inl s ↦ inl (same_text_eq n name s)
  | inr s ↦ inr (includes_name-IsIn names name (ground (arith, h, s)))
]

IsIn-includes_name :
    (names : List Text) (name : Text) → IsIn name names → includes_name names name ≡ true
IsIn-includes_name [] name h = absurd h
IsIn-includes_name (n ∷ names) name (inl e) =
    subst (λ t. includes_name (n ∷ names) t ≡ true) e
      (ap (λ b. b || includes_name names n) (same_text_refl n))
IsIn-includes_name (n ∷ names) name (inr h) = ground (arith, IsIn-includes_name names name h)

starts_with-rest : (p name : Text) → starts_with p name ≡ true → (rest : Text) × (name ≡ p ++ rest)
starts_with-rest [] name h = (name, refl)
starts_with-rest (c ∷ p) [] h = cc
starts_with-rest (c ∷ p) (d ∷ name) h =
    let (rest, e) = starts_with-rest p name (ground (arith, h)) in
    let same : c ≡ d = (ground (arith, h)) in (rest, cc)

starts_with-append : (p rest : Text) → starts_with p (p ++ rest) ≡ true
starts_with-append [] rest = refl
starts_with-append (c ∷ p) rest = rw ((==_iff c c).1 refl, starts_with) (starts_with-append p rest)

or_cases : (a b : Bool) → a || b ≡ true → (a ≡ true) ⊎ (b ≡ true)
or_cases true b h = inl refl
or_cases false b h = inr h

is_host_env_iff : (name : Text) → (is_host_env name ≡ true) ↔ IsHostName name
unfolding is_host_env
is_host_env_iff name = (there, back)
  where
    there : is_host_env name ≡ true → IsHostName name
    there h =
        elim (or_cases (includes_name host_env_names name) (starts_with (codes "LC_") name) h) [
          | inl e ↦ inl (includes_name-IsIn host_env_names name e)
          | inr e ↦ inr (starts_with-rest (codes "LC_") name e)
        ]

    back : IsHostName name → is_host_env name ≡ true
    back (inl h) = ground (arith, IsIn-includes_name host_env_names name h)
    back (inr (rest, e)) =
        let p : starts_with (codes "LC_") name ≡ true =
          (subst (λ t. starts_with (codes "LC_") t ≡ true) (sym e)
            (starts_with-append (codes "LC_") rest)) in
        ground (arith, p)

is_scrubbed_env_iff : (name : Text) → (is_scrubbed_env name ≡ true) ↔ IsScrubbedName name
unfolding is_scrubbed_env
is_scrubbed_env_iff name = (there, back)
  where
    claude : Text
    claude = codes "CLAUDE_CODE_"

    there : is_scrubbed_env name ≡ true → IsScrubbedName name
    there h =
        elim (or_cases (includes_name scrubbed_env_names name)
          (has_prefix scrubbed_env_prefixes name) h) [
            | inl e ↦ inl (includes_name-IsIn scrubbed_env_names name e)
            | inr e ↦ inr (elim (or_cases (starts_with (codes "CLAUDE_CODE_") name) false e) [
              | inl f ↦ starts_with-rest (codes "CLAUDE_CODE_") name f
              | inr f ↦ absurd (cc)
            ])
          ]

    back : IsScrubbedName name → is_scrubbed_env name ≡ true
    back (inl h) = ground (arith, IsIn-includes_name scrubbed_env_names name h)
    back (inr (rest, e)) =
        let p : starts_with (codes "CLAUDE_CODE_") name ≡ true =
          (subst (λ t. starts_with (codes "CLAUDE_CODE_") t ≡ true) (sym e)
            (starts_with-append (codes "CLAUDE_CODE_") rest)) in
        ground (arith, p)

-- No name that the host needs is scrubbed.
kept_names :
    (names : List Text) (name : Text)
    → any is_scrubbed_env names ≡ false
    → IsIn name names
    → is_scrubbed_env name ≡ false
kept_names [] name h i = absurd i
kept_names (n ∷ names) name h (inl e) = subst (λ t. is_scrubbed_env t ≡ false) e (ground (arith, h))
kept_names (n ∷ names) name h (inr i) = kept_names names name (ground (arith, h)) i

IsHostName-kept : (name : Text) → IsHostName name → is_scrubbed_env name ≡ false
unfolding is_scrubbed_env
IsHostName-kept name (inl i) = kept_names host_env_names name refl i
IsHostName-kept name (inr (rest, e)) = subst (λ t. is_scrubbed_env t ≡ false) (sym e) refl

-- An entry in front that is kept, and one that is not.
entry_kept :
    (n v name value : Text) (base : List (Text × Option Text)) (rest : List (Text × Text))
    → is_host_env n ≡ true
    → IsIn (name, value) rest ↔ (IsIn (name, some value) base × IsHostName name)
    → IsIn (name, value) ((n, v) ∷ rest)
      ↔ (IsIn (name, some value) ((n, some v) ∷ base) × IsHostName name)
entry_kept n v name value base rest h (f, g) = (there, back)
  where
    there :
        IsIn (name, value) ((n, v) ∷ rest)
        → IsIn (name, some value) ((n, some v) ∷ base) × IsHostName name
    there (inl e) = (
      inl (ap (λ x. (x.0, some x.1)) e),
      subst IsHostName (ap (λ x. x.0) e) ((is_host_env_iff n).0 h),
    )
    there (inr i) = let (j, k) = f i in (inr j, k)

    back :
        IsIn (name, some value) ((n, some v) ∷ base) × IsHostName name
        → IsIn (name, value) ((n, v) ∷ rest)
    back (inl e, k) = inl (cc)
    back (inr i, k) = inr (g (i, k))

entry_dropped :
    (n name value : Text) (o : Option Text) (base : List (Text × Option Text))
    (rest : List (Text × Text))
    → (o ≡ none) ⊎ (is_host_env n ≡ false)
    → IsIn (name, value) rest ↔ (IsIn (name, some value) base × IsHostName name)
    → IsIn (name, value) rest ↔ (IsIn (name, some value) ((n, o) ∷ base) × IsHostName name)
entry_dropped n name value o base rest h (f, g) = (λ i. let (j, k) = f i in (inr j, k), back h)
  where
    back :
        (o ≡ none) ⊎ (is_host_env n ≡ false)
        → IsIn (name, some value) ((n, o) ∷ base) × IsHostName name
        → IsIn (name, value) rest
    back d (inr i, k) = g (i, k)
    back (inl d) (inl e, k) = absurd (cc)
    back (inr d) (inl e, k) =
        let host = (is_host_env_iff n).1 (subst IsHostName (sym (ap (λ x. x.0) e)) k) in
        absurd (ground (arith, d, host))

host_environment_iff :
    (base : List (Text × Option Text)) (name value : Text)
    → IsIn (name, value) (host_environment base) ↔ (IsIn (name, some value) base × IsHostName name)
unfolding host_environment
host_environment_iff [] name value = (λ h. absurd h, λ h. absurd h.0)
host_environment_iff ((n, none) ∷ base) name value =
    entry_dropped n name value none base (host_environment base) (inl refl)
      (host_environment_iff base name value)
host_environment_iff ((n, some v) ∷ base) name value = elim (Bool-cases (is_host_env n)) [
  | inl h ↦
      rw (IsHostName-kept n ((is_host_env_iff n).0 h), h)
        (entry_kept n v name value base (host_environment base) h
          (host_environment_iff base name value))
  | inr h ↦
      let dropped =
        entry_dropped n name value (some v) base (host_environment base) (inr h)
          (host_environment_iff base name value) in
      elim (Bool-cases (is_scrubbed_env n)) [ inl s ↦ rw s dropped | inr s ↦ rw (s, h) dropped ]
]

scrub_environment_iff :
    (env : List (Text × Text)) (name value : Text)
    → IsIn (name, value) (scrub_environment env)
      ↔ (IsIn (name, value) env × (is_scrubbed_env name ≡ false))
unfolding scrub_environment
scrub_environment_iff [] name value = (λ h. absurd h, λ h. absurd h.0)
scrub_environment_iff ((n, v) ∷ env) name value =
    let ih = scrub_environment_iff env name value in
    elim (Bool-cases (is_scrubbed_env n)) [
      | inl s ↦
          rw (s, scrub_environment)
            (
              λ i. let (j, k) = ih.0 i in (inr j, k),
              λ x. elim x.0 [
                | inl e ↦
                    let same : n ≡ name = (ap (λ y. y.0) e) in
                    let t : is_scrubbed_env name ≡ true =
                      (subst (λ y. is_scrubbed_env y ≡ true) same s) in
                    absurd (ground (arith, t, x.1))
                | inr i ↦ ih.1 (i, x.1)
              ],
            )
      | inr s ↦
          rw (s, scrub_environment)
            (
              λ i. elim i [
                | inl e ↦ (inl e, subst (λ y. is_scrubbed_env y ≡ false) (ap (λ y. y.0) e) s)
                | inr j ↦ let (u, k) = ih.0 j in (inr u, k)
              ],
              λ x. elim x.0 [ inl e ↦ inl e | inr i ↦ inr (ih.1 (i, x.1)) ],
            )
    ]

scrub_environment-host_environment :
    (base : List (Text × Option Text))
    → scrub_environment (host_environment base) ≡ host_environment base
unfolding scrub_environment host_environment
scrub_environment-host_environment [] = refl
scrub_environment-host_environment ((n, none) ∷ base) = scrub_environment-host_environment base
scrub_environment-host_environment ((n, some v) ∷ base) = elim (Bool-cases (is_scrubbed_env n)) [
  | inl s ↦ rw s (scrub_environment-host_environment base)
  | inr s ↦ elim (Bool-cases (is_host_env n)) [
    | inl h ↦ rw (s, h, s) (ap (◌∷◌ (n, v)) (scrub_environment-host_environment base))
    | inr h ↦ rw (s, h) (scrub_environment-host_environment base)
  ]
]

not_scrubbed : (name : Text) → (is_scrubbed_env name ≡ false) ↔ (¬ IsScrubbedName name)
not_scrubbed name = (
  λ h i. let t = (is_scrubbed_env_iff name).1 i in absurd (ground (arith, h, t)),
  λ d. elim (Bool-cases (is_scrubbed_env name)) [
    | inl t ↦ absurd (d ((is_scrubbed_env_iff name).0 t))
    | inr f ↦ f
  ],
)

-- A host is started with exactly the values of the backend's environment whose names are one of the
-- eight that a host needs or begin with `LC_`. A host that someone else started drops from its
-- environment exactly the names of a session's identity, and of the former environment it drops nothing.
pub host_environment-clean :
    (base : List (Text × Option Text)) (env : List (Text × Text)) (name value : Text)
    → (IsIn (name, value) (host_environment base)
        ↔ (IsIn (name, some value) base × IsHostName name))
      × (IsIn (name, value) (scrub_environment env)
          ↔ (IsIn (name, value) env × (¬ IsScrubbedName name)))
      × (scrub_environment (host_environment base) ≡ host_environment base)
host_environment-clean base env name value =
    let (f, g) = scrub_environment_iff env name value in
    let (k, l) = not_scrubbed name in
    (
      host_environment_iff base name value,
      (λ i. let (j, u) = f i in (j, k u), λ x. g (x.0, l x.1)),
      scrub_environment-host_environment base,
    )
