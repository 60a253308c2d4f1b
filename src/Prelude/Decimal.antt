-- ===== src/Prelude/Decimal.antt =====
-- `std::to_string` and `atoi`: decimal numbers as text, and back.
use Prim.Native.Nat.{ℕ, zero, suc, ◌+◌, ◌-◌, ◌*◌, ◌≤◌, ◌<◌}
use Prim.Native.Char.{Char, code}
use Prim.Native.String.{String}
use mathlib.Core.Path.{◌≡◌, refl, ap, ◌∙◌}
use mathlib.Core.Logic.{◌≢◌}
use mathlib.Core.Bool.{Bool, ◌&&◌, ◌||◌}
use mathlib.Core.List.{List, [], ◌∷◌}
use native.Mathlib.Omega.{arith}
use encrypted_transmission_d.Prelude.Tests.{eqb, leb, if◌then◌else◌}
use encrypted_transmission_d.Prelude.Int.{ℤ, pos, negsuc}
use encrypted_transmission_d.Prelude.Lists.{All}

-- The decimal digits of a number, the last one first.
next_digits : List ℕ → List ℕ
next_digits [] = 1 ∷ []
next_digits (d ∷ ds) = if eqb d 9 then 0 ∷ next_digits ds else (d + 1) ∷ ds

digits : ℕ → List ℕ
digits zero = 0 ∷ []
digits (suc n) = next_digits (digits n)

digit_char : ℕ → Char
digit_char zero = "0"
digit_char (suc zero) = "1"
digit_char (suc (suc zero)) = "2"
digit_char (suc (suc (suc zero))) = "3"
digit_char (suc (suc (suc (suc zero)))) = "4"
digit_char (suc (suc (suc (suc (suc zero))))) = "5"
digit_char (suc (suc (suc (suc (suc (suc zero)))))) = "6"
digit_char (suc (suc (suc (suc (suc (suc (suc zero))))))) = "7"
digit_char (suc (suc (suc (suc (suc (suc (suc (suc zero)))))))) = "8"
digit_char _ = "9"

write_digits : List ℕ → String → String
write_digits [] rest = rest
write_digits (d ∷ ds) rest = write_digits ds (String.◌∷◌ (digit_char d) rest)

-- `std::to_string` of a count and of an `int`.
unfoldable pub count_to_string : ℕ → String
unfolding digits next_digits digit_char write_digits
count_to_string n = write_digits (digits n) ""

unfoldable pub to_string : ℤ → String
unfolding count_to_string
to_string (pos n) = count_to_string n
to_string (negsuc n) = String.◌∷◌ "-" (count_to_string (suc n))

is_digit : Char → Bool
is_digit c = leb b'0' (code c) && leb (code c) b'9'

is_space : Char → Bool
is_space c = eqb (code c) 32 || (leb 9 (code c) && leb (code c) 13)

scan_digits : ℕ → String → ℕ
scan_digits acc String.[] = acc
scan_digits acc (String.◌∷◌ c s) =
    let rest = scan_digits (acc * 10 + (code c - 48)) s in if is_digit c then rest else acc

negate : ℕ → ℤ
negate zero = pos 0
negate (suc n) = negsuc n

-- `atoi`: white space, a sign, and digits up to the first other character. Numbers past `int` are
-- undefined in C, and are not cut here.
unfoldable pub atoi : String → ℤ
unfolding is_digit is_space scan_digits negate
atoi String.[] = pos 0
atoi (String.◌∷◌ c s) =
    let rest = atoi s in
    if is_space c
    then rest
    else if eqb (code c) b'-'
    then negate (scan_digits 0 s)
    else if eqb (code c) b'+'
    then pos (scan_digits 0 s)
    else pos (scan_digits 0 (String.◌∷◌ c s))

value : List ℕ → ℕ
value [] = 0
value (d ∷ ds) = d + 10 * value ds

abbrev AreDigits : List ℕ → Type 0
AreDigits = All (λ d. d < 10)

value-next_digits : (ds : List ℕ) → value (next_digits ds) ≡ value ds + 1
unfolding value next_digits
value-next_digits [] = refl
value-next_digits (d ∷ ds) = ground (arith, value-next_digits ds)

next_digits-AreDigits : (ds : List ℕ) → AreDigits ds → AreDigits (next_digits ds)
unfolding next_digits
next_digits-AreDigits [] h = omega arith
next_digits-AreDigits (d ∷ ds) h = ground (arith, next_digits-AreDigits ds)

value-digits : (n : ℕ) → value (digits n) ≡ n
unfolding value digits
value-digits zero = refl
value-digits (suc n) = omega (arith, value-next_digits (digits n), value-digits n)

digits-AreDigits : (n : ℕ) → AreDigits (digits n)
unfolding digits
digits-AreDigits zero = omega arith
digits-AreDigits (suc n) = next_digits-AreDigits (digits n) (digits-AreDigits n)

code-digit_char : (d : ℕ) → d < 10 → code (digit_char d) ≡ 48 + d
unfolding digit_char
code-digit_char zero h = refl
code-digit_char (suc zero) h = refl
code-digit_char (suc (suc zero)) h = refl
code-digit_char (suc (suc (suc zero))) h = refl
code-digit_char (suc (suc (suc (suc zero)))) h = refl
code-digit_char (suc (suc (suc (suc (suc zero))))) h = refl
code-digit_char (suc (suc (suc (suc (suc (suc zero)))))) h = refl
code-digit_char (suc (suc (suc (suc (suc (suc (suc zero))))))) h = refl
code-digit_char (suc (suc (suc (suc (suc (suc (suc (suc zero)))))))) h = refl
code-digit_char (suc (suc (suc (suc (suc (suc (suc (suc (suc n))))))))) h = omega arith

-- What an accumulator grows to over the digits.
shift : ℕ → List ℕ → ℕ
shift acc [] = acc
shift acc (d ∷ ds) = shift acc ds * 10

shift-zero : (ds : List ℕ) → shift 0 ds ≡ 0
unfolding shift
shift-zero [] = refl
shift-zero (d ∷ ds) = omega (arith, shift-zero ds)

scan_digits-write_digits :
    (acc : ℕ) (ds : List ℕ) (rest : String)
    → AreDigits ds
    → scan_digits acc (write_digits ds rest) ≡ scan_digits (shift acc ds + value ds) rest
unfolding scan_digits write_digits is_digit shift value
scan_digits-write_digits acc [] rest h = ap (λ n. scan_digits n rest) (omega arith)
scan_digits-write_digits acc (d ∷ ds) rest h =
    scan_digits-write_digits acc ds (String.◌∷◌ (digit_char d) rest) h.1
    ∙ ground (arith, code-digit_char d h.0)

abbrev BeginsWithDigit : String → Type 0
BeginsWithDigit s = (c : Char) × (t : String) × (s ≡ String.◌∷◌ c t) × (48 ≤ code c) × (code c ≤ 57)

write_digits-BeginsWithDigit :
    (ds : List ℕ) (rest : String)
    → AreDigits ds
    → BeginsWithDigit rest
    → BeginsWithDigit (write_digits ds rest)
unfolding write_digits
write_digits-BeginsWithDigit [] rest h b = b
write_digits-BeginsWithDigit (d ∷ ds) rest h b = write_digits-BeginsWithDigit ds _ h.1 (
  digit_char d,
  rest,
  refl,
  omega (arith, code-digit_char d h.0),
  omega (arith, code-digit_char d h.0),
)

nonempty-BeginsWithDigit :
    (ds : List ℕ) → AreDigits ds → ds ≢ [] → BeginsWithDigit (write_digits ds "")
unfolding write_digits
nonempty-BeginsWithDigit [] h n = absurd (n refl)
nonempty-BeginsWithDigit (d ∷ ds) h n = write_digits-BeginsWithDigit ds _ h.1 (
  digit_char d,
  "",
  refl,
  omega (arith, code-digit_char d h.0),
  omega (arith, code-digit_char d h.0),
)

next_digits-ne-nil : (ds : List ℕ) → next_digits ds ≢ []
unfolding next_digits
next_digits-ne-nil [] = cc
next_digits-ne-nil (d ∷ ds) = ground arith

digits-ne-nil : (n : ℕ) → digits n ≢ []
unfolding digits
digits-ne-nil zero = cc
digits-ne-nil (suc n) = next_digits-ne-nil (digits n)

scan_digits-count_to_string : (n : ℕ) → scan_digits 0 (count_to_string n) ≡ n
unfolding count_to_string scan_digits
scan_digits-count_to_string n =
    scan_digits-write_digits 0 (digits n) "" (digits-AreDigits n)
    ∙ omega (arith, shift-zero (digits n), value-digits n)

-- A text that begins with a digit is read as a number without a sign.
atoi_unsigned : (s : String) → BeginsWithDigit s → atoi s ≡ pos (scan_digits 0 s)
atoi_unsigned s (c, t, e, lo, hi) = rw e (unfold atoi in ground arith)

-- `atoi` reads back what `std::to_string` writes.
pub atoi-to_string : (z : ℤ) → atoi (to_string z) ≡ z
unfolding to_string
atoi-to_string (pos n) =
    atoi_unsigned _ (nonempty-BeginsWithDigit (digits n) (digits-AreDigits n) (digits-ne-nil n))
    ∙ ap pos (scan_digits-count_to_string n)
atoi-to_string (negsuc n) = unfold atoi in ap negate (scan_digits-count_to_string (suc n))
