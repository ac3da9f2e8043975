-- ===== src/Prelude/Text.antt =====
-- JavaScript's `split` at one character.
use Prim.Native.Char.{Char, code}
use Prim.Native.Nat.{ℕ}
use Prim.Native.String
use Prim.Native.String.{String}
use mathlib.Core.List.{List, [], ◌∷◌}
use mpas.Prelude.Tests.{if◌then◌else◌}
use mpas.Prelude.Eq.{◌==◌, nat_eq}

abbrev append_char : String → Char → String
append_char s c = String.◌++◌ s (String.◌∷◌ c String.[])

-- The parts from here on, of which `part` is being read.
split_from : ℕ → String → String → List String
split_from separator part String.[] = part ∷ []
split_from separator part (String.◌∷◌ c s) =
    let closed = part ∷ split_from separator "" s in
    let longer = split_from separator (append_char part c) s in
    if code c == separator then closed else longer

unfoldable pub split : ℕ → String → List String
unfolding split_from
split separator text = split_from separator "" text
