-- ===== src/RelayerManager/Lifecycle/Held.antt =====
-- What an exception in fundRelayers does to the manager's later life.
use relayer_node.Base.{String, ◌≡◌, refl, true, false, List, [], ◌∷◌, arith}
use relayer_node.Js.Text.{to_lower_case}
use relayer_node.Exec.{JsError, thrown, waiting, ◌>>=◌}
use relayer_node.RelayerManager.State.{Services, State, acquire_fund}
use relayer_node.RelayerManager.Fund.{
  has_balance_below_threshold, fund_relayer, fund_if_below, fund_relayers,
}
use relayer_node.RelayerManager.Funding.{locked, Returns, IsPair, fund_relayer-of_pairs}
use relayer_node.RelayerManager.Funding.Keeps.{fund_relayer-keeps}
use relayer_node.RelayerManager.Lifecycle.{Reach}
use relayer_node.RelayerManager.Lifecycle.Keeps.{takes_back_anything, Reach-keeps}

module _ (svc : Services) where
  abbrev IsHeld : State svc.World → Type 0
  IsHeld s = s.fund_relayer_mutex ≡ true

  waits :
      (b : String) (later : List String) (s : State svc.World)
      → IsHeld s
      → fund_relayers svc (b ∷ later) s ≡ (waiting, s)
  unfolding fund_relayers acquire_fund ◌>>=◌
  waits b later s held = ground arith

  fund_relayers-IsHeld :
      (addresses : List String) (s : State svc.World)
      → IsHeld s
      → IsHeld (fund_relayers svc addresses s).1
  unfolding fund_relayers
  fund_relayers-IsHeld [] s held = held
  fund_relayers-IsHeld (b ∷ later) s held = rw (waits b later s held) held

  throws :
      (s : State svc.World) (a : String) (rest : List String) (e : JsError)
      → s.fund_relayer_mutex ≡ false
      → has_balance_below_threshold s.manager (to_lower_case a) ≡ true
      → (fund_relayer svc (to_lower_case a) (locked svc s)).0 ≡ thrown e
      → let r = fund_relayers svc (a ∷ rest) s in (r.0 ≡ thrown e) × IsHeld r.1
  unfolding fund_relayers fund_if_below acquire_fund ◌>>=◌
  throws s a rest e free below fails = (
    ground arith,
    ground
        (arith, fund_relayer-keeps svc IsHeld (λ _ _ h. h) (to_lower_case a) (locked svc s) refl),
  )

  -- Where the call of a service for a relayer's funding throws, fundRelayers ends with that error
  -- and keeps the mutex for good: in every state that later calls of the manager reach, whatever the
  -- services answer by then, a call of fundRelayers with a relayer waits forever.
  pub fund_relayers-leaks_mutex :
      (s u : State svc.World) (a : String) (rest : List String) (e : JsError) (b : String)
      (later : List String)
      → s.fund_relayer_mutex ≡ false
      → has_balance_below_threshold s.manager (to_lower_case a) ≡ true
      → (fund_relayer svc (to_lower_case a) (locked svc s)).0 ≡ thrown e
      → Reach svc (fund_relayers svc (a ∷ rest) s).1 u
      → ((fund_relayers svc (a ∷ rest) s).0 ≡ thrown e)
        × (fund_relayers svc (b ∷ later) u ≡ (waiting, u))
  fund_relayers-leaks_mutex s u a rest e b later free below fails after =
      let (thrown_here, held) = throws s a rest e free below fails in
      (
        thrown_here,
        waits b later u (
            Reach-keeps svc IsHeld (λ _ _ h. h) (λ _ _ _ h. h) fund_relayers-IsHeld (λ _ _ h. h)
              (λ _. Unit) (λ _ h. h) (λ _ _ _ _ h. h) after (takes_back_anything svc after) held),
      )

  -- On a network whose gas price is a pair of fees, fundRelayers funds nobody: at the first relayer
  -- in the queue with a balance of at most the threshold it throws, and in every state that later
  -- calls reach, a call of it with a relayer waits forever. The owner's nonce can always be had.
  pub fund_relayers-of_pairs :
      (s u : State svc.World) (a : String) (rest : List String) (b : String) (later : List String)
      → ((w : svc.World)
          → Returns svc (svc.get_nonce s.manager.owner_account_details.public_key w).0)
      → ((w : svc.World) → IsPair svc (svc.get_gas_price w).0)
      → s.fund_relayer_mutex ≡ false
      → has_balance_below_threshold s.manager (to_lower_case a) ≡ true
      → Reach svc (fund_relayers svc (a ∷ rest) s).1 u
      → ((fund_relayers svc (a ∷ rest) s).0
          ≡ thrown (record { message = "invalid BigNumber value" }))
        × (fund_relayers svc (b ∷ later) u ≡ (waiting, u))
  fund_relayers-of_pairs s u a rest b later nonces pairs free below after =
      fund_relayers-leaks_mutex s u a rest _ b later free below
        (fund_relayer-of_pairs svc (to_lower_case a) (locked svc s) nonces pairs) after
