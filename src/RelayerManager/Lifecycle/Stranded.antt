-- ===== src/RelayerManager/Lifecycle/Stranded.antt =====
-- What becomes of a relayer that was handed out, if addActiveRelayer is not called for it.
use relayer_node.Base.{List, String, ◌≡◌, ◌≢◌, some, arith, eq_iff, inl, inr}
use relayer_node.Js.Dict.{lookup, lookup-insert, lookup-delete}
use relayer_node.Types.{Account}
use relayer_node.RelayerQueue.{RelayerMetaData}
use relayer_node.RelayerQueue.Members.{occurrences, pop-Pops}
use relayer_node.RelayerManager.State.{RelayerManagerOptions, Services, State}
use relayer_node.RelayerManager.Operations.{get_active_relayer, return_relayer, with_pending}
use relayer_node.RelayerManager.Fund.{fund_relayers}
use relayer_node.RelayerManager.Funding.Keeps.{fund_relayers-keeps}
use relayer_node.RelayerManager.Consistency.{present, HasDistinctAddresses, nothing}
use relayer_node.RelayerManager.Lifecycle.{
  Reach, Reach-trans, next, hands_out, new_state, new_state-IsWellFormed, Reach-IsConsistent,
}
use relayer_node.RelayerManager.Lifecycle.Exclusive.{get_active_relayer-IsExclusive}
use relayer_node.RelayerManager.Lifecycle.Keeps.{TakesBackOnly, Reach-keeps}

module _ (svc : Services) where
  abbrev IsBusy : String → State svc.World → Type 0
  IsBusy a s = present (lookup a s.manager.transaction_processing_relayer_map) ≡ 1

  hand-IsBusy :
      (a : String) (s : State svc.World)
      → IsBusy a s
      → IsBusy a (record s { manager = (get_active_relayer s.manager).1 })
  unfolding get_active_relayer
  hand-IsBusy a s h = elim (pop-Pops s.manager.relayer_queue) [
    | inl (_, p) ↦ rw (p, get_active_relayer) h
    | inr (item, rest, _, p) ↦
        rw (p, get_active_relayer)
          (ground (
            arith,
            h,
            lookup-insert item.address a (with_pending item)
                s.manager.transaction_processing_relayer_map,
            eq_iff item.address a,
          ))
  ]

  return-IsBusy :
      (a : String) (s : State svc.World) (b : String) (relayer : RelayerMetaData)
      → b ≢ a
      → IsBusy a s
      → IsBusy a (record s { manager = return_relayer b relayer s.manager })
  unfolding return_relayer
  return-IsBusy a s b relayer other h =
      ground (
        arith,
        h,
        other,
        lookup-delete b a s.manager.transaction_processing_relayer_map,
        eq_iff b a,
      )

  fund-IsBusy :
      (a : String) (addresses : List String) (s : State svc.World)
      → IsBusy a s
      → IsBusy a (fund_relayers svc addresses s).1
  fund-IsBusy a = fund_relayers-keeps svc (IsBusy a) (λ _ _ h. h) (λ _ _ h. h)

  -- The relayer stays with its transaction: it is in the processing map, not in the queue, and
  -- getActiveRelayer does not give it.
  abbrev pub IsStranded : Account → State svc.World → Type 0
  IsStranded relayer u =
      IsBusy relayer.public_key u
      × (occurrences relayer.public_key u.manager.relayer_queue.items ≡ 0)
      × ((get_active_relayer u.manager).0 ≢ some relayer)

  module _ (distinct : (seed : String) → HasDistinctAddresses svc seed)
      (options : RelayerManagerOptions) (w : svc.World) where
    pub handed_out-IsStranded :
        (t u : State svc.World) (relayer : Account)
        → Reach svc (new_state svc options w) t
        → (get_active_relayer t.manager).0 ≡ some relayer
        → (after : Reach svc (record t { manager = (get_active_relayer t.manager).1 }) u)
        → TakesBackOnly svc (λ a. a ≢ relayer.public_key) after
        → IsStranded relayer u
    handed_out-IsStranded t u relayer before e after apart =
        let exclusive = get_active_relayer-IsExclusive svc distinct options w t relayer before e in
        let reached = Reach-trans svc (next before (hands_out t)) after in
        let busy =
          Reach-keeps svc (IsBusy relayer.public_key) (λ _ _ h. h)
            (λ s m grows h. omega (arith, h, (grows relayer.public_key).1))
            (fund-IsBusy relayer.public_key) (λ _ _ h. h) (λ a. a ≢ relayer.public_key)
            (hand-IsBusy relayer.public_key) (return-IsBusy relayer.public_key) after apart
            exclusive.3 in
        let good =
          Reach-IsConsistent svc distinct nothing reached (new_state-IsWellFormed svc options w) in
        (
          busy,
          omega (arith, busy, good.once relayer.public_key),
          λ again.
              let free =
                (get_active_relayer-IsExclusive svc distinct options w u relayer reached again).0 in
              ground (arith, busy, free),
        )
