-- ===== src/GasPrice/Raised.antt =====
-- getBumpedUpGasPrice of a legacy price: by how much it is raised, with the rounding of doubles.
use native.Mathlib.Nat.{mul-le-mul_left}
use relayer_node.Base.{
  ℕ, ◌+◌, ◌*◌, ◌/◌, ◌^◌, ◌≤◌, ◌<◌, String, ◌≡◌, refl, true, false, ◌&&◌, Option, none, some, ltb,
  arith, inl, inr, sym, ◌∙◌, subst, Bool-cases, ◌%◌, ◌==◌,
}
use relayer_node.Js.Number.{
  number_of, times_literal, literal_1_1, shown_integer, integer_of_text, one,
}
use relayer_node.Js.Number.Rounding.{IsNear, round_to_double-IsNear, round_to_double-of_small}
use relayer_node.Exec.{◌>>=◌, pure, returned, or_throw}
use relayer_node.Exec.Ends.{EndsIn}
use relayer_node.Types.{legacy}
use relayer_node.Backend.{Backend, State}
use relayer_node.GasPrice.{includes_chain}
use relayer_node.GasPrice.Bumping.{
  bump, bump_pair_of, bump_text, hex_of_number, at_least, shown, get_bumped_up_gas_price,
}

-- 1.1 times a price of less than 2^51 wei is near the product with the double of 1.1.
times-IsNear : (n : ℕ) → n < 2 ^ 51 → IsNear (times_literal literal_1_1 n) (n * literal_1_1)
unfolding times_literal
times-IsNear n h = rw (round_to_double-of_small n (omega arith)) (round_to_double-IsNear _)

raised_by_tenth :
    (n t x : ℕ) → n < 2 ^ 51 → IsNear t (n * literal_1_1) → t ≤ x * one → 11 * n ≤ 10 * x
raised_by_tenth n t x h near le = omega arith

-- What a percentage of 11 or more gives is not below it.
not_below :
    (n m t : ℕ)
    → n < 2 ^ 51
    → 200 ≤ n
    → 111 * n / 100 ≤ m
    → IsNear t (n * literal_1_1)
    → ltb (m * one) t ≡ false
not_below n m t small large bumped near = ground arith

shown_lem : (y x : ℕ) → shown_integer y ≡ some x → y ≡ x * one
unfolding shown_integer
shown_lem y x h = elim (Bool-cases (y % one == 0 && ltb (y / one) (10 ^ 21))) [
  | inl whole ↦ ground arith
  | inr fraction ↦ absurd (ground arith)
]

module _ (b : Backend) where
  -- The text of a number of at least 11/10 of n.
  abbrev pub IsRaised : ℕ → String → Type 0
  IsRaised n text = (x : ℕ) × (text ≡ b.to_hex_string x) × (11 * n ≤ 10 * x)

  abbrev next_price : ℕ → ℕ → Option ℕ
  next_price n m = at_least b literal_1_1 m (some n) (some (number_of m))

  next_price-raised : (n m x : ℕ) → n < 2 ^ 51 → shown b (next_price n m) ≡ some x → 11 * n ≤ 10 * x
  next_price-raised n m x small h =
      elim (Bool-cases (ltb (number_of m) (times_literal literal_1_1 n))) [
        | inl less ↦
            raised_by_tenth n _ x small (times-IsNear n small)
              (ground (arith, shown_lem (times_literal literal_1_1 n) x))
        | inr enough ↦
            raised_by_tenth n _ x small (times-IsNear n small)
              (ground (arith, shown_lem (number_of m) x))
      ]

  hex_of_number-IsRaised :
      (n : ℕ) (o : Option ℕ) (s : State b)
      → ((x : ℕ) → o ≡ some x → 11 * n ≤ 10 * x)
      → EndsIn
          (IsRaised n)
          ((or_throw o "invalid BigNumber string" >>= λ x. pure (b.to_hex_string x)) s).0
  unfolding ◌>>=◌ or_throw
  hex_of_number-IsRaised n none s h = tt
  hex_of_number-IsRaised n (some x) s h = (x, refl, h x refl)

  shown_price :
      (n m : ℕ) (s : State b)
      → m < 2 ^ 53
      → ltb (m * one) (times_literal literal_1_1 n) ≡ false
      → hex_of_number b (next_price n m) s ≡ (returned (b.to_hex_string m), s)
  unfolding hex_of_number number_of shown_integer or_throw ◌>>=◌
  shown_price n m s fits enough = rw (round_to_double-of_small m fits) (ground (arith))

  module _ (price : String) (n p : ℕ) (s : State b) (read : b.big_number_from price ≡ some n)
      (number : integer_of_text price ≡ some n) where
    get_bumped_up_gas_price_lem :
        get_bumped_up_gas_price b (some (legacy price)) (some p) s
        ≡ hex_of_number b (next_price n (n * (p + 100) / 100)) s
    unfolding get_bumped_up_gas_price bump_text bump ◌>>=◌ or_throw
    get_bumped_up_gas_price_lem =
        elim (includes_chain b.eip1559_supported_networks b.chain_id)
          as (λ on.
            (bump_pair_of b on (some (legacy price)) (some p) >>= λ _.
            bump_text b (some (legacy price)) (some p))
              s
            ≡ hex_of_number b (next_price n (n * (p + 100) / 100)) s) [
              | true ↦ rw (read, number) refl
              | false ↦ rw (read, number) refl
            ]

    -- Whatever the percentage, the bumped-up price of a legacy price below 2^51 wei is at least 11/10
    -- of it, if there is one: getBumpedUpGasPrice throws, or returns the text of such a number.
    pub get_bumped_up_gas_price-raises :
        n < 2 ^ 51
        → EndsIn (IsRaised n) (get_bumped_up_gas_price b (some (legacy price)) (some p) s).0
    unfolding hex_of_number
    get_bumped_up_gas_price-raises small =
        subst (λ r. EndsIn (IsRaised n) r.0) (sym get_bumped_up_gas_price_lem)
          (hex_of_number-IsRaised n _ s (λ x. next_price-raised n _ x small))

    -- A legacy price from 200 wei on and below 2^51, with a percentage of 11 or more and a raised
    -- price below 2^53, is raised by just this percentage, rounded down, and nothing else changes.
    pub get_bumped_up_gas_price-bumps :
        n < 2 ^ 51
        → 200 ≤ n
        → 11 ≤ p
        → n * (p + 100) / 100 < 2 ^ 53
        → get_bumped_up_gas_price b (some (legacy price)) (some p) s
          ≡ (returned (b.to_hex_string (n * (p + 100) / 100)), s)
    get_bumped_up_gas_price-bumps small large much fits =
        get_bumped_up_gas_price_lem
        ∙ shown_price n (n * (p + 100) / 100) s fits (
            not_below n (n * (p + 100) / 100) _ small large (omega (arith, mul-le-mul_left n much))
              (times-IsNear n small))
