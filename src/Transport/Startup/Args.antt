-- ===== src/Transport/Startup/Args.antt =====
-- What the arguments of a session host must have.
use uber_coder.Prelude.{
  ℕ, ◌≡◌, refl, ap, sym, ◌∙◌, false, Option, none, some, List, [], ◌∷◌, arith, is_empty, ◌||◌,
}
use uber_coder.Transport.Startup.{
  Arg, named, separator, ArgName, name_number, HostPaths, ParsedHostArgs, is_blank, required_paths,
  with_paths, value_of, collect_args, from_collected, parse_host_args,
}

-- Named values, each behind its name.
abbrev pub pairs : List (ArgName × Arg) → List Arg → List Arg
pairs [] rest = rest
pairs ((n, v) ∷ ps) rest = named n ∷ v ∷ pairs ps rest

abbrev pub latest_first : List (ArgName × Arg) → List (ℕ × Arg) → List (ℕ × Arg)
latest_first [] values = values
latest_first ((n, v) ∷ ps) values = latest_first ps ((name_number n, v) ∷ values)

collect_args-pairs :
    (ps : List (ArgName × Arg)) (argv : List Arg) (values : List (ℕ × Arg))
    → collect_args (pairs ps (separator ∷ argv)) values ≡ some (latest_first ps values, argv)
unfolding collect_args
collect_args-pairs [] argv values = refl
collect_args-pairs ((n, v) ∷ ps) argv values =
    collect_args-pairs ps argv ((name_number n, v) ∷ values)

required_paths-blank :
    (s r c e : Option Arg) (p : HostPaths)
    → required_paths s r c e ≡ some p
    → is_blank p.socket_path || is_blank p.record_path || is_blank p.cwd || is_blank p.env_file
      ≡ false
required_paths-blank (some s) (some r) (some c) (some e) p h = ground arith
required_paths-blank none r c e p h = cc
required_paths-blank (some s) none c e p h = cc
required_paths-blank (some s) (some r) none e p h = cc
required_paths-blank (some s) (some r) (some c) none p h = cc

with_paths-fields :
    (number : Arg → Option ℕ) (values : List (ℕ × Arg)) (argv : List Arg) (o : Option HostPaths)
    (p : ParsedHostArgs)
    → with_paths number values argv o ≡ some p
    → (o ≡ some p.paths) × (p.argv ≡ argv)
with_paths-fields number values argv none p h = cc
with_paths-fields number values argv (some x) p h = ground arith

-- Arguments of named values and then a command, which are taken, give that whole command, which is
-- not empty, and none of the four required paths is empty.
pub parse_host_args_complete :
    (number : Arg → Option ℕ) (ps : List (ArgName × Arg)) (argv : List Arg) (p : ParsedHostArgs)
    → parse_host_args number (pairs ps (separator ∷ argv)) ≡ some p
    → (p.argv ≡ argv)
      × (is_empty p.argv ≡ false)
      × (is_blank p.paths.socket_path
            || is_blank p.paths.record_path
            || is_blank p.paths.cwd
            || is_blank p.paths.env_file
          ≡ false)
unfolding parse_host_args
parse_host_args_complete number ps argv p h =
    taken (latest_first ps [])
      (ap (from_collected number) (sym (collect_args-pairs ps argv [])) ∙ h)
  where
    taken :
        (values : List (ℕ × Arg))
        → from_collected number (some (values, argv)) ≡ some p
        → (p.argv ≡ argv)
          × (is_empty p.argv ≡ false)
          × (is_blank p.paths.socket_path
                || is_blank p.paths.record_path
                || is_blank p.paths.cwd
                || is_blank p.paths.env_file
              ≡ false)
    taken values q =
        let o =
          required_paths (value_of 0 values) (value_of 1 values) (value_of 2 values)
            (value_of 3 values) in
        let (f, w) : (is_empty argv ≡ false) × (with_paths number values argv o ≡ some p) =
          ground (arith, q) in
        let (x, y) = with_paths-fields number values argv o p w in
        (
          y,
          ap is_empty y ∙ f,
          required_paths-blank (value_of 0 values) (value_of 1 values) (value_of 2 values)
              (value_of 3 values) p.paths x,
        )
