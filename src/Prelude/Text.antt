-- ===== src/Prelude/Text.antt =====
-- C strings and decimal numbers.
use Prim.Native.Char.{code}
use Prim.Native.String.{String}
use mathlib.Core.Path.{◌≡◌, refl, ap}
use mathlib.Core.Logic.{inl, inr}
use mathlib.Core.Bool.{Bool}
use text.Mathlib.Text.{◌==◌}
use encrypted_transmission_d.Prelude.Tests.{eqb, if◌then◌else◌, Bool-cases}

-- The text of a `std::string` up to its first NUL, which is what `strcmp`, `strcpy` and `strlen`
-- see of `s.data()`.
unfoldable pub c_str : String → String
c_str String.[] = ""
c_str (String.◌∷◌ c s) = let rest = c_str s in if eqb (code c) 0 then "" else String.◌∷◌ c rest

-- `s.empty()`; of a C string, `strlen(s) == 0`.
abbrev pub is_empty : String → Bool
is_empty s = s == ""

pub c_str-c_str : (s : String) → c_str (c_str s) ≡ c_str s
unfolding c_str
c_str-c_str String.[] = refl
c_str-c_str (String.◌∷◌ c s) = elim (Bool-cases (eqb (code c) 0)) [
  | inl nul ↦ rw (nul, c_str)
  | inr other ↦ rw (other, c_str) (rw (other, c_str) (ap (String.◌∷◌ c) (c_str-c_str s)))
]
