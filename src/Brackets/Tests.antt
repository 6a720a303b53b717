-- ===== src/Brackets/Tests.antt =====
-- Texts that balanceBrackets repairs.
use vibe_local_go.Base.{◌≡◌, refl, some, codes}
use vibe_local_go.Brackets.{balance_brackets}

cut_off : balance_brackets (codes "{\"a\": [1, (2") ≡ some (codes "{\"a\": [1, (2)]}")
unfolding balance_brackets
cut_off = refl

superfluous : balance_brackets (codes "[1}]]") ≡ some (codes "[1]")
unfolding balance_brackets
superfluous = refl

-- A text that is cut off in a string is closed inside of the string.
in_string : balance_brackets (codes "{\"a") ≡ some (codes "{\"a}")
unfolding balance_brackets
in_string = refl
