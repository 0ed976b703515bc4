-- ===== src/RelayerManager/Funding/Keeps.antt =====
-- What stays as it is while fundRelayers runs: all that the services and the mutex are not.
use relayer_node.Base.{String, Bool, true, false, List, [], ◌∷◌, inl, inr, Bool-cases}
use relayer_node.Js.Text.{to_lower_case}
use relayer_node.Exec.{bind_cases, gets_cases, returned_cases, or_throw_cases}
use relayer_node.Types.{NetworkBasedGasPrice, legacy, eip1559}
use relayer_node.RelayerManager.State.{Services, State, acquire_fund, release_fund}
use relayer_node.RelayerManager.Fund.{
  has_balance_below_threshold, hex_gas_price, fund_relayer, fund_if_below, fund_relayers,
}

module _ (svc : Services) (P : State svc.World → Type 0)
    (of_world : (s : State svc.World) (w : svc.World) → P s → P (record s { world = w })) where
  hex_gas_price-keeps :
      (price : NetworkBasedGasPrice) (s : State svc.World) → P s → P (hex_gas_price svc price s).1
  unfolding hex_gas_price
  hex_gas_price-keeps (legacy price) s h = or_throw_cases P _ _ _ s h (λ n. h)
  hex_gas_price-keeps (eip1559 a b) s h = h

  pub fund_relayer-keeps :
      (address : String) (s : State svc.World) → P s → P (fund_relayer svc address s).1
  unfolding fund_relayer
  fund_relayer-keeps address s h = gets_cases P _ _ s (
      let nonced = of_world s _ h in
      bind_cases P _ _ _ nonced (λ owner_account_nonce.
        let asked = of_world _ _ nonced in
        bind_cases P _ _ _ asked (λ price.
          let priced = hex_gas_price-keeps price _ asked in
          bind_cases P _ _ _ priced (λ gas_price. or_throw_cases P _ _ _ _ priced (λ gas_limit.
            or_throw_cases P _ _ _ _ priced (λ gas_limit_number.
              or_throw_cases P _ _ _ _ priced (λ value. or_throw_cases P _ _ _ _ priced (λ nonce.
                let named = of_world _ _ priced in
                bind_cases P _ _ _ named (λ transaction_id. of_world _ _ named)))))))))

  pub fund_if_below-keeps :
      (address : String) (s : State svc.World) → P s → P (fund_if_below svc address s).1
  unfolding fund_if_below
  fund_if_below-keeps address s h =
      elim (Bool-cases (has_balance_below_threshold s.manager address)) [
        | inl below ↦ simp below (fund_relayer-keeps address s h)
        | inr enough ↦ simp enough h
      ]

  module _
      (of_mutex : (s : State svc.World) (b : Bool)
        → P s
        → P (record s { fund_relayer_mutex = b })) where
    acquire_fund-keeps : (s : State svc.World) → P s → P (acquire_fund s).1
    unfolding acquire_fund
    acquire_fund-keeps s h = elim (Bool-cases s.fund_relayer_mutex) [
      | inl held ↦ simp held h
      | inr free ↦ simp free (of_mutex s true h)
    ]

    pub fund_relayers-keeps :
        (address_list : List String) (s : State svc.World)
        → P s
        → P (fund_relayers svc address_list s).1
    unfolding fund_relayers release_fund
    fund_relayers-keeps [] s h = h
    fund_relayers-keeps (a ∷ address_list) s h =
        let entered = acquire_fund-keeps s h in
        let funded = fund_if_below-keeps (to_lower_case a) _ entered in
        let released = of_mutex _ false funded in
        bind_cases P acquire_fund _ s entered (λ _.
          bind_cases P _ _ _ funded
            (λ _. returned_cases P _ _ _ _ (fund_relayers-keeps address_list _ released)))
