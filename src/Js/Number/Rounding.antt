-- ===== src/Js/Number/Rounding.antt =====
-- How near the doubles of Js/Number are to the numbers that they stand for.
use native.Mathlib.Nat.{pow-succ', div-add-mod', mod-lt, one-le-pow}
use relayer_node.Base.{
  ℕ, zero, suc, ◌+◌, ◌*◌, ◌/◌, ◌%◌, ◌^◌, ◌≤◌, ◌<◌, ◌≡◌, refl, ltb, arith, inl, inr, ◌==◌, sym,
  Bool-cases, if◌then◌else◌, ◌⊎◌,
}
use relayer_node.Js.Number.{excess, round_half_even, round_to_double}

-- A number that is cut by k bits has more than 52 bits left.
more_than_half :
    (n e k : ℕ)
    → (2 ^ 53 ≤ n)
    → ((j : ℕ) → e ≡ suc j → 2 ^ 53 * 2 ^ j ≤ n / 2)
    → k ≡ e
    → 2 ^ 53 * 2 ^ k ≤ n
more_than_half n e zero large half h = omega arith
more_than_half n e (suc j) large half h = omega (arith, pow-succ' 2 j, half j (omega arith))

excess-le : (fuel n k : ℕ) → excess fuel n ≡ suc k → 2 ^ 53 * 2 ^ k ≤ n
unfolding excess
excess-le zero n k h = absurd (omega arith)
excess-le (suc fuel) n k h = elim (Bool-cases (ltb n (2 ^ 53))) [
  | inl small ↦ absurd (ground arith)
  | inr large ↦
      more_than_half n (excess fuel (n / 2)) k (ground arith) (excess-le fuel (n / 2))
        (ground arith)
]

-- The nearest of two neighbours, and the even one in the middle.
abbrev chosen : (q r p : ℕ) → ℕ
chosen q r p = if ltb r p then q else if ltb p r then q + 1 else q + q % 2

chosen_cases :
    (q r p : ℕ)
    → r < p + p
    → ((chosen q r p ≡ q) × (r ≤ p)) ⊎ ((chosen q r p ≡ q + 1) × (p ≤ r) × (r < p + p))
chosen_cases q r p h = elim (Bool-cases (ltb r p)) [
  | inl below ↦ inl (ground arith, ground arith)
  | inr above ↦ elim (Bool-cases (ltb p r)) [
    | inl over ↦ inr (ground arith, ground arith, h)
    | inr middle ↦ elim (Bool-cases (q % 2 == 0)) [
      | inl even ↦ inl (ground arith, ground arith)
      | inr odd ↦ inr (ground arith, ground arith, h)
    ]
  ]
]

rounded_up_or_down :
    (n d q r e p : ℕ)
    → d ≡ p + p
    → n ≡ q * d + r
    → ((e ≡ q) × (r ≤ p)) ⊎ ((e ≡ q + 1) × (p ≤ r) × (r < p + p))
    → (e * d ≤ n + p) × (n ≤ e * d + p)
rounded_up_or_down n d q r e p double h (inl (same, le)) = rw same (omega arith, omega arith)
rounded_up_or_down n d q r e p double h (inr (next, le, lt)) = rw next (omega arith, omega arith)

multiple_near :
    (n d p : ℕ)
    → d ≡ p + p
    → 0 < d
    → (chosen (n / d) (n % d) p * d ≤ n + p) × (n ≤ chosen (n / d) (n % d) p * d + p)
multiple_near n d p double pos =
    rounded_up_or_down n d (n / d) (n % d) (chosen (n / d) (n % d) p) p double
      (sym (div-add-mod' n d)) (chosen_cases (n / d) (n % d) p (omega (arith, mod-lt n pos)))

round_half_even-near :
    (n k : ℕ)
    → (round_half_even n (suc k) * 2 ^ suc k ≤ n + 2 ^ k)
      × (n ≤ round_half_even n (suc k) * 2 ^ suc k + 2 ^ k)
unfolding round_half_even
round_half_even-near n k =
    multiple_near n (2 ^ suc k) (2 ^ k) (omega (arith, pow-succ' 2 k))
      (one-le-pow (suc k) 2 (omega arith))

-- The error is at most half of the last bit.
abbrev pub IsNear : ℕ → ℕ → Type 0
IsNear r n = (2 ^ 53 * r ≤ 2 ^ 53 * n + n) × (2 ^ 53 * n ≤ 2 ^ 53 * r + n)

scaled : (r n p : ℕ) → r ≤ n + p → n ≤ r + p → 2 ^ 53 * p ≤ n → IsNear r n
scaled r n p below above long = (omega arith, omega arith)

cut-IsNear : (fuel n k : ℕ) → excess fuel n ≡ k → IsNear (round_half_even n k * 2 ^ k) n
unfolding round_half_even
cut-IsNear fuel n zero h = (omega arith, omega arith)
cut-IsNear fuel n (suc k) h =
    let (below, above) = round_half_even-near n k in
    scaled (round_half_even n (suc k) * 2 ^ suc k) n (2 ^ k) below above (excess-le fuel n k h)

-- A number with at most 53 bits is a double.
excess-of_small : (fuel n : ℕ) → n < 2 ^ 53 → excess fuel n ≡ 0
unfolding excess
excess-of_small zero n h = refl
excess-of_small (suc fuel) n h = ground arith

uncut : (n k : ℕ) → k ≡ 0 → round_half_even n k * 2 ^ k ≡ n
unfolding round_half_even
uncut n zero h = omega arith
uncut n (suc k) h = absurd (omega arith)

pub round_to_double-of_small : (n : ℕ) → n < 2 ^ 53 → round_to_double n ≡ n
unfolding round_to_double
round_to_double-of_small n h = uncut n (excess 1100 n) (excess-of_small 1100 n h)

pub round_to_double-IsNear : (n : ℕ) → IsNear (round_to_double n) n
unfolding round_to_double
round_to_double-IsNear n = cut-IsNear 1100 n (excess 1100 n) refl
