-- ===== src/Js/Signed.antt =====
-- Numbers of JavaScript with a sign, and NaN: the size is kept as in Js/Number. Numbers too large
-- for a double, and the bits that a product below 1 has beyond 2^-52, do not occur.
use relayer_node.Base.{
  ℕ, ◌+◌, ◌*◌, ◌/◌, ◌≡◌, refl, Bool, true, false, not, ◌&&◌, Option, none, some, ℤ, pos, negsuc,
  ltb, ◌==◌,
}
use relayer_node.Js.Number.{round_to_double, number_of, one}

pub data Number : Type 0 where
  nan : Number
  finite : (negative : Bool) (size : ℕ) → Number

abbrev pub number_of_ℕ : ℕ → Number
number_of_ℕ n = finite false (number_of n)

-- The number that parseInt or Number gives; `none` is NaN.
abbrev pub number_of_int : Option ℤ → Number
number_of_int none = nan
number_of_int (some (pos n)) = finite false (number_of n)
number_of_int (some (negsuc n)) = finite true (number_of (n + 1))

abbrev pub number_of_natural : Option ℕ → Number
number_of_natural none = nan
number_of_natural (some n) = finite false (number_of n)

abbrev differ : Bool → Bool → Bool
differ true b = not b
differ false b = b

-- x * y
unfoldable pub times : Number → Number → Number
times nan y = nan
times (finite s x) nan = nan
times (finite s x) (finite t y) = finite (differ s t) (round_to_double (x * y) / one)

abbrev less_signed : Bool → Bool → ℕ → ℕ → Bool
less_signed false false x y = ltb x y
less_signed false true x y = false
less_signed true false x y = not (x == 0 && y == 0)
less_signed true true x y = ltb y x

-- x < y
unfoldable pub less : Number → Number → Bool
less nan y = false
less (finite s x) nan = false
less (finite s x) (finite t y) = less_signed s t x y

signed_tests :
    (less (times (number_of_ℕ 3) (number_of_ℕ 5)) (number_of_ℕ 16) ≡ true)
    × (less (number_of_int (some (negsuc 0))) (number_of_ℕ 0) ≡ true)
    × (less nan (number_of_ℕ 1) ≡ false)
unfolding less times number_of round_to_double
signed_tests = (refl, refl, refl)
