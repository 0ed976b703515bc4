-- ===== src/Js/Number.antt =====
-- Numbers of JavaScript that are not negative: doubles, kept as their numerator over 2^52. Every
-- integer that is a double is such a number, and every double from 1 on.
pub mod Rounding
use Prim.Native.Char.{code}
use Prim.Native.String.{[], ◌∷◌}
use relayer_node.Base.{
  ℕ, zero, suc, ◌+◌, ◌-◌, ◌*◌, ◌/◌, ◌%◌, ◌^◌, String, ◌≡◌, refl, true, false, ◌&&◌, ◌||◌, Option,
  none, some, leb, ltb, ◌==◌, if◌then◌else◌,
}

-- By how many bits a number is too long for the 53 bits of a double. No number of the program has
-- more than 1100 bits.
excess : ℕ → ℕ → ℕ
excess zero n = 0
excess (suc fuel) n = elim (ltb n (2 ^ 53)) [ true ↦ 0 | false ↦ suc (excess fuel (n / 2)) ]

-- n / 2^k to the nearest integer, and to the even one of two that are equally near.
round_half_even : ℕ → ℕ → ℕ
round_half_even n zero = n
round_half_even n (suc k) =
    let q = n / 2 ^ suc k in
    let r = n % 2 ^ suc k in if ltb r (2 ^ k) then q else if ltb (2 ^ k) r then q + 1 else q + q % 2

-- The nearest number with 53 significant bits.
unfoldable pub round_to_double : ℕ → ℕ
unfolding excess round_half_even
round_to_double n = let k = excess 1100 n in round_half_even n k * 2 ^ k

abbrev pub one : ℕ
one = 2 ^ 52

-- An integer as a number.
unfoldable pub number_of : ℕ → ℕ
number_of n = round_to_double n * one

-- x * c for the literals 1.1 and 1.11: the numerators of the doubles that they stand for.
abbrev pub literal_1_1 : ℕ
literal_1_1 = 4953959590107546

abbrev pub literal_1_11 : ℕ
literal_1_11 = 4998995586381251

-- The product of an integer's number with a literal.
unfoldable pub times_literal : ℕ → ℕ → ℕ
times_literal literal n = round_to_double (round_to_double n * literal)

-- The integer that the text of a number shows; `none` where it shows a fraction or an exponent.
unfoldable pub shown_integer : ℕ → Option ℕ
shown_integer x = if x % one == 0 && ltb (x / one) (10 ^ 21) then some (x / one) else none

abbrev decimal_value : ℕ → Option ℕ
decimal_value c = if leb 48 c && leb c 57 then some (c - 48) else none

abbrev hex_digit_value : ℕ → Option ℕ
hex_digit_value c =
    if leb 48 c && leb c 57
    then some (c - 48)
    else if leb 97 c && leb c 102
    then some (c - 87)
    else if leb 65 c && leb c 70
    then some (c - 55)
    else none

add_digit : ℕ → Option ℕ → Option ℕ → Option ℕ
add_digit base none d = none
add_digit base (some n) none = none
add_digit base (some n) (some d) = some (n * base + d)

read_digits : ℕ → (ℕ → Option ℕ) → Option ℕ → String → Option ℕ
unfolding add_digit
read_digits base value acc [] = acc
read_digits base value acc (c ∷ s) = read_digits base value (add_digit base acc (value (code c))) s

read_hex : String → Option ℕ
unfolding read_digits
read_hex [] = none
read_hex (c ∷ s) = read_digits 16 hex_digit_value (some 0) (c ∷ s)

read_prefixed : String → String → Option ℕ
unfolding read_hex read_digits
read_prefixed whole [] = read_digits 10 decimal_value (some 0) whole
read_prefixed whole (d ∷ s) =
    if code d == 120 || code d == 88
    then read_hex s
    else read_digits 10 decimal_value (some 0) whole

-- Number(s) of a text of decimal digits, or of 0x and hexadecimal ones, as the exact integer that
-- it writes; the empty text is 0. `none` is NaN. The signs, fractions, exponents and blanks that
-- Number reads too are not prices that the services write.
unfoldable pub integer_of_text : String → Option ℕ
unfolding read_prefixed read_digits
integer_of_text [] = some 0
integer_of_text (c ∷ s) =
    if code c == 48 then read_prefixed (c ∷ s) s else read_digits 10 decimal_value (some 0) (c ∷ s)

number_tests :
    (integer_of_text "0x3b9aca00" ≡ some 1000000000)
    × (integer_of_text "1000" ≡ some 1000)
    × (integer_of_text "12gwei" ≡ none)
    × (shown_integer (times_literal literal_1_1 3) ≡ none)
    × (shown_integer (times_literal literal_1_1 1000000000) ≡ some 1100000000)
    × (round_to_double 9007199254740993 ≡ 9007199254740992)
unfolding integer_of_text times_literal shown_integer round_to_double
number_tests = (refl, refl, refl, refl, refl, refl)
