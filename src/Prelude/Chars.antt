-- ===== src/Prelude/Chars.antt =====
-- Classes of characters, and texts that match a sequence of them.
use Prim.Native.Char.{code}
use Prim.Native.Nat.{ℕ, zero, suc}
use Prim.Native.String.{String}
use mathlib.Core.Bool.{Bool, true, false, ◌&&◌}
use mathlib.Core.List.{List, [], ◌∷◌}
use mpas.Prelude.Tests.{leb}
use mpas.Prelude.Eq.{nat_eq}

abbrev pub is_digit : ℕ → Bool
is_digit c = leb b'0' c && leb c b'9'

abbrev pub is_lower : ℕ → Bool
is_lower c = leb b'a' c && leb c b'z'

abbrev pub is_upper : ℕ → Bool
is_upper c = leb b'A' c && leb c b'Z'

-- `s.length`, in Unicode characters.
abbrev pub size : String → ℕ
size String.[] = zero
size (String.◌∷◌ c s) = suc (size s)

-- `s.slice(n)`.
unfoldable pub drop : ℕ → String → String
drop zero text = text
drop (suc n) String.[] = String.[]
drop (suc n) (String.◌∷◌ c s) = drop n s

-- Every character of the text passes: `/^[…]*$/`.
unfoldable pub all_chars : (ℕ → Bool) → String → Bool
all_chars p String.[] = true
all_chars p (String.◌∷◌ c s) = p (code c) && all_chars p s

-- One class for each character.
unfoldable pub matches_classes : List (ℕ → Bool) → String → Bool
matches_classes [] String.[] = true
matches_classes [] (String.◌∷◌ c s) = false
matches_classes (p ∷ ps) String.[] = false
matches_classes (p ∷ ps) (String.◌∷◌ c s) = p (code c) && matches_classes ps s
