-- ===== src/Prelude/Maps.antt =====
-- `Map`s keyed by texts, as lists of their entries in the order of insertion.
use mathlib.Core.Option.{Option, none, some}
use mathlib.Core.List.{List, [], ◌∷◌}
use uber_coder.Prelude.Tests.{if◌then◌else◌}
use uber_coder.Prelude.Lists.{Text, same_text}

-- `Map.get`
abbrev pub lookup_key {ℓ} : {A : Type ℓ} → Text → List (Text × A) → Option A
lookup_key k [] = none
lookup_key k ((j, a) ∷ rest) =
    let other = lookup_key k rest in if same_text j k then some a else other

-- `Map.delete`
abbrev pub remove_key {ℓ} : {A : Type ℓ} → Text → List (Text × A) → List (Text × A)
remove_key k [] = []
remove_key k ((j, a) ∷ rest) =
    let others = remove_key k rest in if same_text j k then rest else (j, a) ∷ others
