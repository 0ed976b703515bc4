-- ===== src/RelayerManager/Lifecycle/Lost.antt =====
-- A relayer that addActiveRelayer takes back with many pending transactions.
use relayer_node.Base.{
  ℕ, String, ◌≡◌, false, none, some, arith, inl, inr, Option-cases, eq_iff, str_eq, str_eq_refl,
  ltb_ℤ,
}
use relayer_node.Js.Text.{to_lower_case}
use relayer_node.Js.Dict.{lookup, lookup-delete}
use relayer_node.Exec.{returned, returned_cases}
use relayer_node.RelayerQueue
use relayer_node.RelayerQueue.{RelayerMetaData}
use relayer_node.RelayerQueue.Members.{one_if, find-some}
use relayer_node.RelayerManager.State.{RelayerManager, RelayerManagerOptions, Services, State}
use relayer_node.RelayerManager.Operations.{
  return_relayer, take_back, add_active_relayer, settle, post_transaction_mined, find_relayer_data,
}
use relayer_node.RelayerManager.Consistency.{
  present, copies, HasDistinctAddresses, IsConsistent, nothing, IsWellFormed,
}
use relayer_node.RelayerManager.Consistency.Steps.{scale_up-IsConsistent}
use relayer_node.RelayerManager.Lifecycle.{
  Reach, new_state, new_state-IsWellFormed, Reach-IsConsistent,
}

-- Counts one address: a manager that is consistent with it as an extra holds the address nowhere.
abbrev only : String → String → ℕ
only a b = one_if (str_eq a b)

module _ (svc : Services) where
  -- The relayer is deleted from the processing map and not put into the queue.
  return_relayer-IsLost :
      (a : String) (relayer : RelayerMetaData) (m : RelayerManager)
      → lookup a m.transaction_processing_relayer_map ≡ some relayer
      → ltb_ℤ relayer.pending_count m.pending_transaction_count_threshold ≡ false
      → IsWellFormed svc m
      → IsConsistent svc (only a) (return_relayer a relayer m)
  unfolding return_relayer
  return_relayer-IsLost a relayer m busy full h =
      let deleted = λ (b : String). lookup-delete a b m.transaction_processing_relayer_map in
      rw full (record {
        once = λ b. ground (arith, h.once b, deleted b, eq_iff a b);
        known = λ b p. ground (arith, h.known b, deleted b, eq_iff a b);
        keyed = λ b r p. ground (arith, h.keyed b r, deleted b);
        account = h.account;
        derived = h.derived;
      })

  not_found_of_IsLost :
      (a : String) (m : RelayerManager) → IsConsistent svc (only a) m → find_relayer_data a m ≡ none
  not_found_of_IsLost a m h = elim (Option-cases (RelayerQueue.find a m.relayer_queue.items)) [
    | inl missing ↦ ground (arith, h.once a, str_eq_refl a)
    | inr (r, found) ↦
        absurd (ground (arith, h.once a, str_eq_refl a, find-some a m.relayer_queue.items r found))
  ]

  -- postTransactionMined does not find the relayer.
  mined-IsLost :
      (a : String) (s : State svc.World)
      → IsConsistent svc (only (to_lower_case a)) s.manager
      → post_transaction_mined svc a s ≡ (returned tt, s)
  unfolding post_transaction_mined settle
  mined-IsLost a s h =
      rw (not_found_of_IsLost (to_lower_case a) s.manager h, post_transaction_mined, settle)

  -- What is lost: the address stands in neither place though its account is known, and a mined
  -- transaction of it changes nothing.
  abbrev pub IsLost : String → State svc.World → Type 0
  IsLost a t =
      (copies (to_lower_case a) t.manager ≡ 0)
      × (present (lookup (to_lower_case a) t.manager.relayer_map) ≡ 1)
      × (post_transaction_mined svc a t ≡ (returned tt, t))

  IsLost-of_IsConsistent :
      (a : String) (t : State svc.World)
      → IsConsistent svc (only (to_lower_case a)) t.manager
      → IsLost a t
  IsLost-of_IsConsistent a t h =
      let b = to_lower_case a in
      (
        ground (arith, h.once b, str_eq_refl b),
        ground (arith, h.known b, str_eq_refl b),
        mined-IsLost a t h,
      )

  module _ (distinct : (seed : String) → HasDistinctAddresses svc seed) where
    dropped_here :
        (s : State svc.World) (a : String) (relayer : RelayerMetaData)
        → IsWellFormed svc s.manager
        → lookup (to_lower_case a) s.manager.transaction_processing_relayer_map ≡ some relayer
        → ltb_ℤ relayer.pending_count s.manager.pending_transaction_count_threshold ≡ false
        → IsConsistent svc (only (to_lower_case a)) (add_active_relayer svc a s).1.manager
    unfolding add_active_relayer take_back
    dropped_here s a relayer h busy full =
        rw (busy, add_active_relayer, take_back)
          (returned_cases
            (λ (t : State svc.World). IsConsistent svc (only (to_lower_case a)) t.manager) _ _ _ s
            (scale_up-IsConsistent svc (only (to_lower_case a)) distinct _
              (return_relayer-IsLost (to_lower_case a) relayer s.manager busy full h)))

    -- A relayer that addActiveRelayer takes back with as many pending transactions as the threshold,
    -- or more, is lost: in every state that later calls reach it stands neither in the queue nor in
    -- the processing map though its account is known, and when its transactions are mined
    -- postTransactionMined changes nothing, so that it is never used again.
    pub add_active_relayer-IsLost :
        (options : RelayerManagerOptions) (w : svc.World) (s t : State svc.World) (a : String)
        (relayer : RelayerMetaData)
        → Reach svc (new_state svc options w) s
        → lookup (to_lower_case a) s.manager.transaction_processing_relayer_map ≡ some relayer
        → ltb_ℤ relayer.pending_count s.manager.pending_transaction_count_threshold ≡ false
        → Reach svc (add_active_relayer svc a s).1 t
        → IsLost a t
    add_active_relayer-IsLost options w s t a relayer before busy full after =
        let good =
          Reach-IsConsistent svc distinct nothing before (new_state-IsWellFormed svc options w) in
        IsLost-of_IsConsistent a t (
          Reach-IsConsistent svc distinct (only (to_lower_case a)) after
            (dropped_here s a relayer good busy full))
