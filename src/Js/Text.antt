-- ===== src/Js/Text.antt =====
-- `toLowerCase`, `toString` and `parseInt` of JavaScript.
use Prim.Native.Char.{Char, char, code, IsScalar}
use Prim.Native.String.{[], ◌∷◌, ◌++◌ as append}
use mathlib.Core.Logic.{dite}
use mathlib.Core.Option
use native.Mathlib.Decide.{dec_lt}
use text.Mathlib.TextEquality.{Char-path}
use text.Mathlib.TextLemmas.{nil-append, cons-append}
use relayer_node.Base.{
  ℕ, zero, suc, ◌+◌, ◌-◌, ◌*◌, ◌/◌, ◌%◌, ◌<◌, String, ◌≡◌, refl, ap, Bool, true, false, ◌&&◌, ◌||◌,
  Option, none, some, arith, leb, ltb, ◌==◌, if◌then◌else◌, ℤ, pos, negsuc,
}

-- s + t on texts
infixr 65 ◌&◌
abbrev pub ◌&◌ : String → String → String
s & t = append s t

pub IsScalar-below : (n : ℕ) → n < 55296 → IsScalar n
IsScalar-below n h = ground arith

-- The letters A to Z become a to z. Addresses are hexadecimal, so no other letter occurs.
lower_char : Char → Char
unfolding dec_lt
lower_char c =
    dite (dec_lt (code c) 91)
      (λ h.
        if leb 65 (code c)
        then char (code c + 32) (IsScalar-below (code c + 32) (omega arith))
        else c)
      (λ _. c)

unfoldable pub to_lower_case : String → String
unfolding lower_char
to_lower_case [] = []
to_lower_case (c ∷ s) = lower_char c ∷ to_lower_case s

code-lower_char :
    (c : Char)
    → code (lower_char c)
      ≡ (if leb 65 (code c) then (if ltb (code c) 91 then code c + 32 else code c) else code c)
unfolding lower_char
code-lower_char c = ground arith

lower_char_idem : (c : Char) → lower_char (lower_char c) ≡ lower_char c
lower_char_idem c =
    Char-path _ _ (ground (arith, code-lower_char c, code-lower_char (lower_char c)))

-- Lower-casing a text twice is lower-casing it once.
pub to_lower_case_idem : (s : String) → to_lower_case (to_lower_case s) ≡ to_lower_case s
unfolding to_lower_case
to_lower_case_idem [] = refl
to_lower_case_idem (c ∷ s) = cc (lower_char_idem c, to_lower_case_idem s)

digit_char : ℕ → Char
digit_char n = char (48 + n % 10) (IsScalar-below (48 + n % 10) (omega arith))

digits : ℕ → ℕ → String → String
unfolding digit_char
digits zero n out = out
digits (suc fuel) n out =
    let out' = digit_char n ∷ out in
    let rest = digits fuel (n / 10) out' in if ltb n 10 then out' else rest

-- `n.toString()` of an integer that is not negative (below 10^21, where no exponent is written).
-- A number has fewer digits than its successor.
unfoldable pub to_string : ℕ → String
unfolding digits
to_string n = digits (suc n) n []

abbrev is_digit : ℕ → Bool
is_digit c = leb 48 c && leb c 57

-- Blanks that `parseInt` skips: tab to carriage return, and the space.
abbrev is_blank : ℕ → Bool
is_blank c = (leb 9 c && leb c 13) || c == 32

scan_digits : ℕ → String → ℕ
scan_digits n [] = n
scan_digits n (c ∷ s) = if is_digit (code c) then scan_digits (n * 10 + (code c - 48)) s else n

parse_digits : String → Option ℕ
parse_digits [] = none
parse_digits (c ∷ s) = if is_digit (code c) then some (scan_digits (code c - 48) s) else none

abbrev negate : ℕ → ℤ
negate zero = pos 0
negate (suc n) = negsuc n

-- `parseInt(s, 10)`: blanks, a sign, then the longest run of digits; `none` is NaN.
unfoldable pub parse_int : String → Option ℤ
unfolding scan_digits parse_digits
parse_int [] = none
parse_int (c ∷ s) =
    if is_blank (code c)
    then parse_int s
    else if code c == 45
    then Option.map negate (parse_digits s)
    else if code c == 43
    then Option.map pos (parse_digits s)
    else Option.map pos (parse_digits (c ∷ s))

code-digit_char : (n : ℕ) → code (digit_char n) ≡ 48 + n % 10
unfolding digit_char
code-digit_char n = refl

scan_digits-digits :
    (fuel n : ℕ) (out : String) → n < fuel → scan_digits 0 (digits fuel n out) ≡ scan_digits n out
unfolding digits scan_digits
scan_digits-digits zero n out h = absurd (omega arith)
scan_digits-digits (suc fuel) n out h =
    ground (arith, code-digit_char n, scan_digits-digits fuel (n / 10) (digit_char n ∷ out))

parse_int-digits :
    (fuel n : ℕ) (out : String)
    → n < fuel
    → parse_int (digits fuel n out) ≡ some (pos (scan_digits 0 (digits fuel n out)))
unfolding digits parse_int scan_digits
parse_int-digits zero n out h = absurd (omega arith)
parse_int-digits (suc fuel) n out h =
    ground (arith, code-digit_char n, parse_int-digits fuel (n / 10) (digit_char n ∷ out))

-- A number that is printed is read back.
pub parse_int-to_string : (n : ℕ) → parse_int (to_string n) ≡ some (pos n)
unfolding to_string scan_digits
parse_int-to_string n =
    ground (arith, parse_int-digits (suc n) n [], scan_digits-digits (suc n) n [])

to_string_tests :
    (to_string 0 ≡ "0")
    × (to_string 1234567890123456789 ≡ "1234567890123456789")
    × (to_lower_case "0xAbZz9[" ≡ "0xabzz9[")
    × (parse_int "" ≡ none)
    × (parse_int " -12px" ≡ some (negsuc 11))
unfolding to_string to_lower_case parse_int
to_string_tests = (refl, refl, refl, refl, refl)

pub to_lower_case-append :
    (s t : String) → to_lower_case (s & t) ≡ to_lower_case s & to_lower_case t
unfolding to_lower_case
to_lower_case-append [] t = rw (nil-append t, nil-append (to_lower_case t))
to_lower_case-append (c ∷ s) t =
    rw (cons-append c s t, cons-append (lower_char c) (to_lower_case s) (to_lower_case t))
      (ap (λ u. lower_char c ∷ u) (to_lower_case-append s t))

lower_char-digit_char : (n : ℕ) → lower_char (digit_char n) ≡ digit_char n
lower_char-digit_char n =
    Char-path _ _ (ground (arith, code-lower_char (digit_char n), code-digit_char n))

to_lower_case-digits :
    (fuel n : ℕ) (out : String)
    → to_lower_case (digits fuel n out) ≡ digits fuel n (to_lower_case out)
unfolding digits to_lower_case
to_lower_case-digits zero n out = refl
to_lower_case-digits (suc fuel) n out =
    ground (arith, lower_char-digit_char n, to_lower_case-digits fuel (n / 10) (digit_char n ∷ out))

-- Lower-casing leaves a number as it is.
pub to_lower_case-to_string : (n : ℕ) → to_lower_case (to_string n) ≡ to_string n
unfolding to_string to_lower_case
to_lower_case-to_string n = to_lower_case-digits (suc n) n []

-- Different numbers have different texts.
pub to_string-injective : (m n : ℕ) → to_string m ≡ to_string n → m ≡ n
to_string-injective m n e =
    ground (arith, ap parse_int e, parse_int-to_string m, parse_int-to_string n)

-- s.startsWith(t)
is_prefix : String → String → Bool
is_prefix [] s = true
is_prefix (c ∷ t) [] = false
is_prefix (c ∷ t) (d ∷ s) = code c == code d && is_prefix t s

-- s.includes(t), and s.indexOf(t) > -1
unfoldable pub includes : (t s : String) → Bool
unfolding is_prefix
includes t [] = is_prefix t []
includes t (c ∷ s) = is_prefix t (c ∷ s) || includes t s

includes_tests : (includes "low" "nonce too low" ≡ true) × (includes "lox" "nonce too low" ≡ false)
unfolding includes
includes_tests = (refl, refl)
