-- ===== src/Transport/Startup/Examples.antt =====
-- The theorems on what a host reads at its start, applied to one record, environment and command line.
use uber_coder.Prelude.{
  ℕ, ◌≤◌, ◌≡◌, refl, true, false, ◌||◌, Option, none, some, List, [], ◌∷◌, is_empty, Text, codes,
  ◌↔◌,
}
use uber_coder.Transport.Startup.{
  natural, text, yes, other, IdentityFields, RecordFields, HostRecord, is_natural, leads_group,
  parse_identity, parse_host_record, Arg, plain, named, separator, ArgName, socket, record_file,
  cwd, env_file, linger_ms, ParsedHostArgs, is_blank, collect_args, parse_host_args,
}
use uber_coder.Transport.Startup.Records.{parse_host_record-checked}
use uber_coder.Transport.Startup.Environment.{
  is_scrubbed_env, is_host_env, host_environment, scrub_environment, IsIn, IsHostName,
  IsScrubbedName,
}
use uber_coder.Transport.Startup.Environment.Clean.{host_environment-clean}
use uber_coder.Transport.Startup.Args.{pairs, parse_host_args_complete}

abbrev child_fields : IdentityFields
child_fields = record {
  pid = natural 40;
  start_ticks = other;
  boot_id = other;
  process_group = natural 40;
}

abbrev fields : RecordFields
fields = record {
  version = natural 1;
  socket_path = text (47 ∷ []);
  argv_hash = text (97 ∷ []);
  started_at = other;
  parent_death_signal = yes;
  host = some (record child_fields { pid = natural 39 });
  child = some child_fields;
}

abbrev taken : HostRecord
taken = record {
  host = record { pid = 39; start_ticks = none; boot_id = none };
  child = record { pid = 40; start_ticks = none; boot_id = none };
  process_group = 40;
  socket_path = 47 ∷ [];
  argv_hash = 97 ∷ [];
  started_at = [];
  parent_death_signal = true;
}

fields-taken : parse_host_record (some fields) ≡ some taken
unfolding parse_host_record parse_identity
fields-taken = refl

parse_host_record-checked_example :
    (is_natural 1 fields.version ≡ true)
    × (leads_group taken.child.pid fields.child ≡ true)
    × (taken.process_group ≡ taken.child.pid)
    × (2 ≤ taken.child.pid)
    × (2 ≤ taken.host.pid)
parse_host_record-checked_example = parse_host_record-checked fields taken fields-taken

abbrev base : List (Text × Option Text)
base =
    (codes "PATH", some (47 ∷ []))
    ∷ (codes "TMUX", some (49 ∷ []))
    ∷ (codes "LC_ALL", some (67 ∷ []))
    ∷ (codes "HOME", none)
    ∷ []

abbrev started_with : List (Text × Text)
started_with = (codes "CLAUDE_CODE_ENTRYPOINT", 49 ∷ []) ∷ (codes "SHELL", 50 ∷ []) ∷ []

taken_over : host_environment base ≡ (codes "PATH", 47 ∷ []) ∷ (codes "LC_ALL", 67 ∷ []) ∷ []
unfolding host_environment is_scrubbed_env is_host_env
taken_over = refl

host_environment-clean_example :
    (IsIn (codes "PATH", 47 ∷ []) (host_environment base)
      ↔ (IsIn (codes "PATH", some (47 ∷ [])) base × IsHostName (codes "PATH")))
    × (IsIn (codes "PATH", 47 ∷ []) (scrub_environment started_with)
        ↔ (IsIn (codes "PATH", 47 ∷ []) started_with × (¬ IsScrubbedName (codes "PATH"))))
    × (scrub_environment (host_environment base) ≡ host_environment base)
host_environment-clean_example = host_environment-clean base started_with (codes "PATH") (47 ∷ [])

abbrev given : List (ArgName × Arg)
given =
    (socket, plain (1 ∷ []))
    ∷ (record_file, plain (2 ∷ []))
    ∷ (cwd, plain (3 ∷ []))
    ∷ (env_file, plain (4 ∷ []))
    ∷ (linger_ms, plain (500 ∷ []))
    ∷ []

abbrev number : Arg → Option ℕ
number separator = none
number (named n) = none
number (plain []) = none
number (plain (n ∷ t)) = some n

abbrev parsed : ParsedHostArgs
parsed = record {
  paths = record {
    socket_path = plain (1 ∷ []);
    record_path = plain (2 ∷ []);
    cwd = plain (3 ∷ []);
    env_file = plain (4 ∷ []);
  };
  argv = plain (9 ∷ []) ∷ [];
  replay_max_bytes = none;
  replay_max_age_ms = none;
  linger_ms = some 500;
  max_line_bytes = none;
}

given-parsed : parse_host_args number (pairs given (separator ∷ plain (9 ∷ []) ∷ [])) ≡ some parsed
unfolding parse_host_args collect_args
given-parsed = refl

parse_host_args_complete_example :
    (parsed.argv ≡ plain (9 ∷ []) ∷ [])
    × (is_empty parsed.argv ≡ false)
    × (is_blank parsed.paths.socket_path
          || is_blank parsed.paths.record_path
          || is_blank parsed.paths.cwd
          || is_blank parsed.paths.env_file
        ≡ false)
parse_host_args_complete_example =
    parse_host_args_complete number given (plain (9 ∷ []) ∷ []) parsed given-parsed
