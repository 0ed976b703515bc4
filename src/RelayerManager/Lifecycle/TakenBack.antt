-- ===== src/RelayerManager/Lifecycle/TakenBack.antt =====
-- Where a relayer is that addActiveRelayer takes back with few pending transactions.
use mathlib.Core.Option.{some-injective}
use relayer_node.Base.{
  List, subst, ◌≤◌, String, ◌≡◌, true, some, arith, ltb_ℤ, eq_iff, str_eq_refl, Option-cases, inl,
  inr,
}
use relayer_node.Js.Text.{to_lower_case, to_lower_case_idem}
use relayer_node.Js.Dict.{lookup, lookup-delete}
use relayer_node.Exec.{returned_cases}
use relayer_node.Types.{Account}
use relayer_node.RelayerQueue.{RelayerMetaData}
use relayer_node.RelayerQueue.Members.{occurrences, occurrences-push, pop-Pops}
use relayer_node.RelayerManager.State.{RelayerManager, RelayerManagerOptions, Services, State}
use relayer_node.RelayerManager.Create.{account_at, account_of, node_path}
use relayer_node.RelayerManager.Operations.{
  get_active_relayer, add_active_relayer, return_relayer, take_back,
}
use relayer_node.RelayerManager.Fund.{fund_relayers}
use relayer_node.RelayerManager.Funding.Keeps.{fund_relayers-keeps}
use relayer_node.RelayerManager.Consistency.{present, HasDistinctAddresses, nothing, IsWellFormed}
use relayer_node.RelayerManager.Consistency.Steps.{add_active_relayer-IsConsistent}
use relayer_node.RelayerManager.Lifecycle.{
  Reach, next, hands_out, new_state, new_state-IsWellFormed, Reach-IsConsistent,
}
use relayer_node.RelayerManager.Lifecycle.Keeps.{scale_up-keeps}

module _ (svc : Services) where
  -- The address stands in the queue and not in the processing map.
  abbrev IsQueued : String → State svc.World → Type 0
  IsQueued a s =
      (1 ≤ occurrences a s.manager.relayer_queue.items)
      × (present (lookup a s.manager.transaction_processing_relayer_map) ≡ 0)

  fund-IsQueued :
      (a : String) (addresses : List String) (s : State svc.World)
      → IsQueued a s
      → IsQueued a (fund_relayers svc addresses s).1
  fund-IsQueued a = fund_relayers-keeps svc (IsQueued a) (λ _ _ h. h) (λ _ _ h. h)

  return-IsQueued :
      (a : String) (s : State svc.World) (relayer : RelayerMetaData)
      → relayer.address ≡ a
      → ltb_ℤ relayer.pending_count s.manager.pending_transaction_count_threshold ≡ true
      → IsQueued a (record s { manager = return_relayer a relayer s.manager })
  unfolding return_relayer
  return-IsQueued a s relayer same below =
      let pushed = occurrences-push a s.manager.relayer_queue relayer in
      let deleted = lookup-delete a a s.manager.transaction_processing_relayer_map in
      rw below (
        ground (arith, pushed, same, eq_iff relayer.address a),
        ground (arith, deleted, str_eq_refl a),
      )

  taken_back-IsQueued :
      (a : String) (s : State svc.World) (relayer : RelayerMetaData)
      → lookup (to_lower_case a) s.manager.transaction_processing_relayer_map ≡ some relayer
      → relayer.address ≡ to_lower_case a
      → ltb_ℤ relayer.pending_count s.manager.pending_transaction_count_threshold ≡ true
      → IsQueued (to_lower_case a) (add_active_relayer svc a s).1
  unfolding add_active_relayer take_back
  taken_back-IsQueued a s relayer busy same below =
      let b = to_lower_case a in
      rw (busy, add_active_relayer, take_back)
        (returned_cases (IsQueued b) _ _ _ s (
          scale_up-keeps svc (IsQueued b) (λ _ _ h. h)
            (λ s m grows h. (omega (arith, h.0, (grows b).0), omega (arith, h.1, (grows b).1)))
            (fund-IsQueued b) (λ _ _ h. h) _ (return-IsQueued b s relayer same below)))

  -- A relayer with fewer pending transactions than the threshold is back in the queue, once, and
  -- out of the processing map, when addActiveRelayer has been called for it.
  pub add_active_relayer-IsQueued :
      (distinct : (seed : String) → HasDistinctAddresses svc seed) (a : String)
      (s : State svc.World) (relayer : RelayerMetaData)
      → IsWellFormed svc s.manager
      → lookup (to_lower_case a) s.manager.transaction_processing_relayer_map ≡ some relayer
      → ltb_ℤ relayer.pending_count s.manager.pending_transaction_count_threshold ≡ true
      → let u = (add_active_relayer svc a s).1.manager in
        (occurrences (to_lower_case a) u.relayer_queue.items ≡ 1)
        × (present (lookup (to_lower_case a) u.transaction_processing_relayer_map) ≡ 0)
  add_active_relayer-IsQueued distinct a s relayer h busy below =
      let good = add_active_relayer-IsConsistent svc nothing distinct a s h in
      let queued =
        taken_back-IsQueued a s relayer busy (h.keyed (to_lower_case a) relayer busy) below in
      (omega (arith, queued.0, good.once (to_lower_case a)), queued.1)

  -- What a manager in good order hands out has an address in lower case.
  handed_out_lower :
      (m : RelayerManager) (relayer : Account)
      → IsWellFormed svc m
      → (get_active_relayer m).0 ≡ some relayer
      → to_lower_case relayer.public_key ≡ relayer.public_key
  unfolding get_active_relayer account_at
  handed_out_lower m relayer h e = elim (pop-Pops m.relayer_queue) [
    | inl (_, p) ↦ cc (rw (p, get_active_relayer) at e)
    | inr (item, rest, _, p) ↦
        let (i, _, at) = h.derived item.address relayer (rw (p, get_active_relayer) at e) in
        elim (Option-cases (svc.derive m.relayer_seed (node_path svc i))) [
          | inl failed ↦ cc (rw (failed, account_at) at at)
          | inr (wallet, derived) ↦
              let same = rw (derived, account_at) at at in
              subst (λ (a : Account). to_lower_case a.public_key ≡ a.public_key)
                (some-injective (account_of wallet) relayer same)
                (to_lower_case_idem wallet.eth_address)
        ]
  ]

  module _ (distinct : (seed : String) → HasDistinctAddresses svc seed)
      (options : RelayerManagerOptions) (w : svc.World) where
    -- Once the relayer is given back, with its transaction counted and fewer than the threshold.
    pub given_back-IsQueued :
        (t : State svc.World) (relayer : Account) (r : RelayerMetaData)
        → let m = (get_active_relayer t.manager).1 in
          Reach svc (new_state svc options w) t
          → (get_active_relayer t.manager).0 ≡ some relayer
          → lookup relayer.public_key m.transaction_processing_relayer_map ≡ some r
          → ltb_ℤ r.pending_count m.pending_transaction_count_threshold ≡ true
          → let u =
              (add_active_relayer svc relayer.public_key (record t { manager = m })).1.manager in
            (occurrences relayer.public_key u.relayer_queue.items ≡ 1)
            × (present (lookup relayer.public_key u.transaction_processing_relayer_map) ≡ 0)
    given_back-IsQueued t relayer r before e busy below =
        let good =
          Reach-IsConsistent svc distinct nothing before (new_state-IsWellFormed svc options w) in
        let after =
          Reach-IsConsistent svc distinct nothing (next before (hands_out t))
            (new_state-IsWellFormed svc options w) in
        let lower = handed_out_lower t.manager relayer good e in
        let a = relayer.public_key in
        let m = (get_active_relayer t.manager).1 in
        let u = (add_active_relayer svc a (record t { manager = m })).1.manager in
        subst
          (λ b.
            (occurrences b u.relayer_queue.items ≡ 1)
            × (present (lookup b u.transaction_processing_relayer_map) ≡ 0))
          lower
          (add_active_relayer-IsQueued distinct a
            (record t { manager = (get_active_relayer t.manager).1 }) r after (rw lower busy) below)
