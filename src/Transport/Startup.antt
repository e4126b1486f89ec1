-- ===== src/Transport/Startup.antt =====
-- What a session host reads at its start, in apps/server/src/providers/transport/session-host.ts: its
-- arguments, its environment, and the record of an earlier host. JSON is what `JSON.parse` made of it.
pub mod Records
pub mod Environment
pub mod Args
mod Examples
use uber_coder.Prelude.{
  ℕ, ◌+◌, Bool, true, false, not, ◌&&◌, ◌||◌, Option, none, some, List, [], ◌∷◌, Text, ltb, leb,
  ◌==◌, if◌then◌else◌, any, filter, same_text, is_empty,
}

-- A field of a JSON object, as far as the host looks at it; a natural number, a text, the value true,
-- or anything else.
pub data Field : Type 0 where
  natural : ℕ → Field
  text : Text → Field
  yes other : Field

pub record IdentityFields : Type 0 where
  pub pid : Field
  pub start_ticks : Field
  pub boot_id : Field
  pub process_group : Field

pub record RecordFields : Type 0 where
  pub version : Field
  pub socket_path : Field
  pub argv_hash : Field
  pub started_at : Field
  pub parent_death_signal : Field
  -- None where the value is no object.
  pub host : Option IdentityFields
  pub child : Option IdentityFields

pub record HostProcessIdentity : Type 0 where
  pub pid : ℕ
  pub start_ticks : Option Text
  pub boot_id : Option Text

pub record HostRecord : Type 0 where
  pub host : HostProcessIdentity
  pub child : HostProcessIdentity
  pub process_group : ℕ
  pub socket_path : Text
  pub argv_hash : Text
  pub started_at : Text
  pub parent_death_signal : Bool

abbrev pub text_of : Field → Option Text
text_of (natural n) = none
text_of (text t) = some t
text_of yes = none
text_of other = none

abbrev pub identity_of : Field → IdentityFields → Option HostProcessIdentity
identity_of (natural n) f =
    if leb n 1
    then none
    else some (record { pid = n; start_ticks = text_of f.start_ticks; boot_id = text_of f.boot_id })
identity_of (text t) f = none
identity_of yes f = none
identity_of other f = none

-- `parseIdentity`
unfoldable pub parse_identity : Option IdentityFields → Option HostProcessIdentity
parse_identity none = none
parse_identity (some f) = identity_of f.pid f

abbrev pub is_natural : ℕ → Field → Bool
is_natural n (natural m) = m == n
is_natural n (text t) = false
is_natural n yes = false
is_natural n other = false

abbrev pub is_yes : Field → Bool
is_yes (natural m) = false
is_yes (text t) = false
is_yes yes = true
is_yes other = false

abbrev pub or_empty : Option Text → Text
or_empty none = []
or_empty (some t) = t

-- Whether the group named in the record is the one that the child leads.
abbrev pub leads_group : ℕ → Option IdentityFields → Bool
leads_group pid none = false
leads_group pid (some f) = is_natural pid f.process_group

abbrev pub host_record_of :
    RecordFields
    → Option Text
    → Option Text
    → Option HostProcessIdentity
    → Option HostProcessIdentity
    → Option HostRecord
host_record_of f (some socket_path) (some argv_hash) (some host) (some child) =
    if not (is_natural 1 f.version) || not (leads_group child.pid f.child)
    then none
    else some (record {
      host = host;
      child = child;
      process_group = child.pid;
      socket_path = socket_path;
      argv_hash = argv_hash;
      started_at = or_empty (text_of f.started_at);
      parent_death_signal = is_yes f.parent_death_signal;
    })
host_record_of f (some socket_path) (some argv_hash) (some host) none = none
host_record_of f (some socket_path) (some argv_hash) none child = none
host_record_of f (some socket_path) none host child = none
host_record_of f none argv_hash host child = none

-- `parseHostRecord`; none for a text that is no JSON object.
unfoldable pub parse_host_record : Option RecordFields → Option HostRecord
parse_host_record none = none
parse_host_record (some f) =
    host_record_of f (text_of f.socket_path) (text_of f.argv_hash) (parse_identity f.host)
      (parse_identity f.child)

pub data ArgName : Type 0 where
  socket record_file cwd env_file replay_bytes replay_age_ms linger_ms max_line_bytes : ArgName
  unknown_name : Text → ArgName

-- An argument: the `--` before the command, one that begins with `--`, or another text.
pub data Arg : Type 0 where
  separator : Arg
  named : ArgName → Arg
  plain : Text → Arg

-- Values under unknown names are never read, so these names share a number.
abbrev pub name_number : ArgName → ℕ
name_number socket = 0
name_number record_file = 1
name_number cwd = 2
name_number env_file = 3
name_number replay_bytes = 4
name_number replay_age_ms = 5
name_number linger_ms = 6
name_number max_line_bytes = 7
name_number (unknown_name t) = 8

-- The loop of `parseHostArgs`: the values, the latest first, and the command; none where it throws.
unfoldable pub collect_args : List Arg → List (ℕ × Arg) → Option (List (ℕ × Arg) × List Arg)
collect_args [] values = some (values, [])
collect_args (separator ∷ rest) values = some (values, rest)
collect_args (plain t ∷ rest) values = none
collect_args (named n ∷ []) values = none
collect_args (named n ∷ v ∷ rest) values = collect_args rest ((name_number n, v) ∷ values)

abbrev pub value_of : ℕ → List (ℕ × Arg) → Option Arg
value_of k [] = none
value_of k ((j, a) ∷ xs) = let rest = value_of k xs in if j == k then some a else rest

abbrev pub is_blank : Arg → Bool
is_blank separator = false
is_blank (named n) = false
is_blank (plain t) = is_empty t

pub record HostPaths : Type 0 where
  pub socket_path : Arg
  pub record_path : Arg
  pub cwd : Arg
  pub env_file : Arg

-- `required`, for the four paths.
abbrev pub required_paths : Option Arg → Option Arg → Option Arg → Option Arg → Option HostPaths
required_paths (some s) (some r) (some c) (some e) =
    if is_blank s || is_blank r || is_blank c || is_blank e
    then none
    else some (record { socket_path = s; record_path = r; cwd = c; env_file = e })
required_paths none r c e = none
required_paths (some s) none c e = none
required_paths (some s) (some r) none e = none
required_paths (some s) (some r) (some c) none = none

-- `number`: a missing value is no error, one that is no number at least 0 is.
abbrev pub number_ok : (Arg → Option ℕ) → Option Arg → Bool
number_ok number none = true
number_ok number (some a) = elim (number a) [ none ↦ false | some n ↦ true ]

abbrev pub number_value : (Arg → Option ℕ) → Option Arg → Option ℕ
number_value number none = none
number_value number (some a) = number a

pub record ParsedHostArgs : Type 0 where
  pub paths : HostPaths
  pub argv : List Arg
  pub replay_max_bytes : Option ℕ
  pub replay_max_age_ms : Option ℕ
  pub linger_ms : Option ℕ
  pub max_line_bytes : Option ℕ

abbrev pub with_paths :
    (Arg → Option ℕ) → List (ℕ × Arg) → List Arg → Option HostPaths → Option ParsedHostArgs
with_paths number values argv none = none
with_paths number values argv (some paths) = some (record {
  paths = paths;
  argv = argv;
  replay_max_bytes = number_value number (value_of 4 values);
  replay_max_age_ms = number_value number (value_of 5 values);
  linger_ms = number_value number (value_of 6 values);
  max_line_bytes = number_value number (value_of 7 values);
})

abbrev pub from_collected :
    (Arg → Option ℕ) → Option (List (ℕ × Arg) × List Arg) → Option ParsedHostArgs
from_collected number none = none
from_collected number (some (values, argv)) =
    let paths =
      required_paths (value_of 0 values) (value_of 1 values) (value_of 2 values)
        (value_of 3 values) in
    if is_empty argv
    then none
    else if number_ok number (value_of 4 values)
        && number_ok number (value_of 5 values)
        && number_ok number (value_of 6 values)
        && number_ok number (value_of 7 values)
    then with_paths number values argv paths
    else none

-- `parseHostArgs`; `number` is `Number` where that is finite and at least 0.
unfoldable pub parse_host_args : (Arg → Option ℕ) → List Arg → Option ParsedHostArgs
parse_host_args number args = from_collected number (collect_args args [])
