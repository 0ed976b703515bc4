-- ===== src/GasPrice/Bump.antt =====
-- getBumpedUpGasPrice of a pair of fees, or of no price.
use relayer_node.Base.{ℕ, String, refl, Bool, true, false, Option, none, some, inl}
use relayer_node.Exec.{Throws, IsPure, or_throw-IsPure, bind-IsPure, bind-Throws}
use relayer_node.Types.{NetworkBasedGasPrice, legacy, eip1559}
use relayer_node.Backend.{Backend, State}
use relayer_node.GasPrice.Bumping.{
  bump, bump_pair, bump_pair_of, bump_text, hex_of_number, get_bumped_up_gas_price,
}

abbrev pub IsText : Option NetworkBasedGasPrice → Type 0
IsText (some (legacy price)) = Unit
IsText _ = ⊥

module _ (b : Backend) where
  bump-IsPure :
      (price : String) (percentage : Option ℕ) (s : State b) → IsPure (bump b price percentage) s
  unfolding bump
  bump-IsPure price percentage s =
      bind-IsPure _ _ s (or_throw-IsPure _ _ s)
        (λ n. bind-IsPure _ _ s (or_throw-IsPure _ _ s) (λ percent. inl (_, refl)))

  hex_of_number-IsPure : (x : Option ℕ) (s : State b) → IsPure (hex_of_number b x) s
  unfolding hex_of_number
  hex_of_number-IsPure x s = bind-IsPure _ _ s (or_throw-IsPure _ _ s) (λ n. inl (_, refl))

  bump_pair-IsPure :
      (priority fee : String) (percentage : Option ℕ) (s : State b)
      → IsPure (bump_pair b priority fee percentage) s
  unfolding bump_pair
  bump_pair-IsPure priority fee percentage s =
      bind-IsPure _ _ s (bump-IsPure priority percentage s) (λ p.
        bind-IsPure _ _ s (bump-IsPure fee percentage s) (λ f.
          bind-IsPure _ _ s (hex_of_number-IsPure _ s)
            (λ x. bind-IsPure _ _ s (hex_of_number-IsPure _ s) (λ y. inl (_, refl)))))

  bump_pair_of-IsPure :
      (on : Bool) (past : Option NetworkBasedGasPrice) (percentage : Option ℕ) (s : State b)
      → IsPure (bump_pair_of b on past percentage) s
  bump_pair_of-IsPure true (some (eip1559 priority fee)) percentage s =
      bind-IsPure _ _ s (bump_pair-IsPure priority fee percentage s) (λ _. inl (tt, refl))
  bump_pair_of-IsPure true (some (legacy _)) percentage s = inl (tt, refl)
  bump_pair_of-IsPure true none percentage s = inl (tt, refl)
  bump_pair_of-IsPure false past percentage s = inl (tt, refl)

  bump_text-Throws :
      (past : Option NetworkBasedGasPrice) (percentage : Option ℕ) (s : State b)
      → (IsText past → ⊥)
      → Throws (bump_text b past percentage) s
  unfolding bump_text
  bump_text-Throws none percentage s h = (_, refl)
  bump_text-Throws (some (eip1559 _ _)) percentage s h = (_, refl)
  bump_text-Throws (some (legacy _)) percentage s h = absurd (h tt)

  -- getBumpedUpGasPrice throws on a pair of fees, and on a price that is undefined, on every network
  -- and with every percentage.
  pub get_bumped_up_gas_price-Throws :
      (past : Option NetworkBasedGasPrice) (percentage : Option ℕ) (s : State b)
      → (IsText past → ⊥)
      → Throws (get_bumped_up_gas_price b past percentage) s
  unfolding get_bumped_up_gas_price
  get_bumped_up_gas_price-Throws past percentage s h =
      bind-Throws _ _ s (bump_pair_of-IsPure _ past percentage s)
        (λ _. bump_text-Throws past percentage s h)
