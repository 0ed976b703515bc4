-- ===== src/RelayerManager/Funding.antt =====
-- Which relayers fundRelayers funds, and when it throws.
pub mod Keeps
use relayer_node.Base.{String, ◌≡◌, refl, true, false, List, ◌∷◌, arith, inl, inr, Bool-cases}
use relayer_node.Js.Text.{to_lower_case}
use relayer_node.Exec.{
  JsError, Result, returned, thrown, waiting, Exec, ◌>>=◌, continue, bind_cases, gets_cases,
  or_throw_cases,
}
use relayer_node.Types.{NetworkBasedGasPrice, legacy, eip1559}
use relayer_node.RelayerManager.State.{Services, State, acquire_fund, release_fund}
use relayer_node.RelayerManager.Funding.Keeps.{fund_relayer-keeps}
use relayer_node.RelayerManager.Fund.{
  has_balance_below_threshold, hex_gas_price, fund_relayer, fund_if_below, fund_relayers,
}

module _ (svc : Services) where
  -- The state in which fundRelayers runs the body of a round.
  abbrev pub locked : State svc.World → State svc.World
  locked s = record s { fund_relayer_mutex = true }

  -- A relayer that is not in the queue with a balance of at most the threshold is passed over: no
  -- service is called and the mutex is free again.
  fund_relayers-passes_over :
      (s : State svc.World) (a : String) (rest : List String)
      → s.fund_relayer_mutex ≡ false
      → has_balance_below_threshold s.manager (to_lower_case a) ≡ false
      → fund_relayers svc (a ∷ rest) s ≡ fund_relayers svc rest s
  unfolding fund_relayers fund_if_below acquire_fund release_fund ◌>>=◌
  fund_relayers-passes_over s a rest free enough = ground arith

  abbrev pub IsPair : Result NetworkBasedGasPrice → Type 0
  IsPair (returned (eip1559 _ _)) = Unit
  IsPair _ = ⊥

  abbrev pub Returns {ℓ} : {A : Type ℓ} → Result A → Type 0
  Returns (returned _) = Unit
  Returns _ = ⊥

  hex_gas_price-of_pair :
      (p : Result NetworkBasedGasPrice) (f : String → Exec (State svc.World) (Unit {0}))
      (s : State svc.World)
      → IsPair p
      → (continue p (λ price. hex_gas_price svc price >>= f) s).0
        ≡ thrown (record { message = "invalid BigNumber value" })
  unfolding hex_gas_price ◌>>=◌
  hex_gas_price-of_pair (returned (eip1559 _ _)) f s h = refl
  hex_gas_price-of_pair (returned (legacy _)) f s h = absurd h
  hex_gas_price-of_pair (thrown _) f s h = absurd h
  hex_gas_price-of_pair waiting f s h = absurd h

  continue-Returns {ℓ} :
      {A : Type ℓ} (r : Result A) (f : A → Exec (State svc.World) (Unit {0})) (s : State svc.World)
      (x : Result (Unit {0}))
      → Returns r
      → ((a : A) → (f a s).0 ≡ x)
      → (continue r f s).0 ≡ x
  continue-Returns (returned a) f s x h k = k a
  continue-Returns (thrown _) f s x h k = absurd h
  continue-Returns waiting f s x h k = absurd h

  pub fund_relayer-of_pairs :
      (address : String) (s : State svc.World)
      → ((w : svc.World) → Returns (svc.get_nonce s.manager.owner_account_details.public_key w).0)
      → ((w : svc.World) → IsPair (svc.get_gas_price w).0)
      → (fund_relayer svc address s).0 ≡ thrown (record { message = "invalid BigNumber value" })
  unfolding fund_relayer ◌>>=◌
  fund_relayer-of_pairs address s nonces pairs =
      continue-Returns _ _ _ _ (nonces s.world) (λ n. hex_gas_price-of_pair _ _ _ (pairs _))
