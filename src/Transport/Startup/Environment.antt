-- ===== src/Transport/Startup/Environment.antt =====
-- The environment of a session host, of apps/server/src/providers/transport/session-host.ts: a list of names
-- and values, as `Object.entries` gives it; a value may be undefined.
pub mod Clean
use uber_coder.Prelude.{
  ◌≡◌, ◌⊎◌, Bool, true, false, not, ◌||◌, Option, none, some, List, [], ◌∷◌, ◌++◌, Text, any,
  filter, same_text, starts_with, codes, if◌then◌else◌,
}

abbrev pub scrubbed_env_names : List Text
scrubbed_env_names =
    codes "AGENT_CONSOLE_SESSION_ID"
    ∷ codes "CODEX_THREAD_ID"
    ∷ codes "CLAUDECODE"
    ∷ codes "TMUX"
    ∷ []

abbrev pub scrubbed_env_prefixes : List Text
scrubbed_env_prefixes = codes "CLAUDE_CODE_" ∷ []

abbrev pub host_env_names : List Text
host_env_names =
    codes "PATH"
    ∷ codes "HOME"
    ∷ codes "USER"
    ∷ codes "LOGNAME"
    ∷ codes "LANG"
    ∷ codes "LANGUAGE"
    ∷ codes "TZ"
    ∷ codes "TMPDIR"
    ∷ []

-- `names.includes(name)`
abbrev pub includes_name : List Text → Text → Bool
includes_name names name = any (λ n. same_text n name) names

abbrev pub has_prefix : List Text → Text → Bool
has_prefix prefixes name = any (λ p. starts_with p name) prefixes

-- `isScrubbedEnv`
unfoldable pub is_scrubbed_env : Text → Bool
is_scrubbed_env name =
    includes_name scrubbed_env_names name || has_prefix scrubbed_env_prefixes name

unfoldable pub is_host_env : Text → Bool
is_host_env name = includes_name host_env_names name || starts_with (codes "LC_") name

-- `hostEnvironment`
unfoldable pub host_environment : List (Text × Option Text) → List (Text × Text)
host_environment [] = []
host_environment ((name, none) ∷ base) = host_environment base
host_environment ((name, some value) ∷ base) =
    let rest = host_environment base in
    if is_scrubbed_env name then rest else if is_host_env name then (name, value) ∷ rest else rest

-- The loop at the start of `main`, over the environment that a host was started with.
unfoldable pub scrub_environment : List (Text × Text) → List (Text × Text)
scrub_environment env = filter (λ x. not (is_scrubbed_env x.0)) env

-- A member of a list.
abbrev pub IsIn : {A : Type 0} → A → List A → Type 0
IsIn a [] = ⊥
IsIn a (b ∷ bs) = (b ≡ a) ⊎ IsIn a bs

-- A name that the host needs: one of eight, or that of a locale.
abbrev pub IsHostName : Text → Type 0
IsHostName name = IsIn name host_env_names ⊎ ((rest : Text) × (name ≡ codes "LC_" ++ rest))

-- A name of the identity of a session: one of four, or one of Claude's own.
abbrev pub IsScrubbedName : Text → Type 0
IsScrubbedName name =
    IsIn name scrubbed_env_names ⊎ ((rest : Text) × (name ≡ codes "CLAUDE_CODE_" ++ rest))
