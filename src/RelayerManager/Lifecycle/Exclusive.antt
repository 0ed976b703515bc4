-- ===== src/RelayerManager/Lifecycle/Exclusive.antt =====
-- Which relayers getActiveRelayer of EVMRelayerManager hands out.
use relayer_node.Base.{String, ◌≡◌, refl, ap, ◌↔◌, none, some, [], arith, inl, inr, str_eq_refl}
use relayer_node.Js.Dict.{lookup, lookup-insert}
use relayer_node.Types.{Account}
use relayer_node.RelayerQueue.Members.{occurrences, pop-Pops}
use relayer_node.RelayerManager.State.{RelayerManager, RelayerManagerOptions, Services, State}
use relayer_node.RelayerManager.Operations.{get_active_relayer, with_pending}
use relayer_node.RelayerManager.Consistency.{present, HasDistinctAddresses, nothing, IsWellFormed}
use relayer_node.RelayerManager.Lifecycle.{
  Reach, new_state, new_state-IsWellFormed, Reach-IsConsistent,
}

-- The relayer that a call hands out, and where its address is before and after the call.
abbrev pub IsExclusive : Account → RelayerManager → RelayerManager → Type 0
IsExclusive relayer before after =
    (lookup relayer.public_key before.transaction_processing_relayer_map ≡ none)
    × (occurrences relayer.public_key before.relayer_queue.items ≡ 1)
    × (occurrences relayer.public_key after.relayer_queue.items ≡ 0)
    × (present (lookup relayer.public_key after.transaction_processing_relayer_map) ≡ 1)

module _ (svc : Services) where
  hand_out-IsExclusive :
      (m : RelayerManager) (relayer : Account)
      → IsWellFormed svc m
      → (get_active_relayer m).0 ≡ some relayer
      → IsExclusive relayer m (get_active_relayer m).1
  unfolding get_active_relayer occurrences
  hand_out-IsExclusive m relayer h e = elim (pop-Pops m.relayer_queue) [
    | inl (_, p) ↦ cc (rw (p, get_active_relayer) at e)
    | inr (item, rest, front, p) ↦
        let found : lookup item.address m.relayer_map ≡ some relayer =
          rw (p, get_active_relayer) at e in
        let same : relayer.public_key ≡ item.address = h.account item.address relayer found in
        let inserted =
          lookup-insert item.address item.address (with_pending item)
            m.transaction_processing_relayer_map in
        rw (same, p, get_active_relayer)
          (ground (
            arith,
            h.once item.address,
            ap (occurrences item.address) front,
            str_eq_refl item.address,
            inserted,
          ))
  ]

  active_relayer-none_iff :
      (m : RelayerManager)
      → IsWellFormed svc m
      → ((get_active_relayer m).0 ≡ none) ↔ (m.relayer_queue.items ≡ [])
  unfolding get_active_relayer occurrences
  active_relayer-none_iff m h = elim (pop-Pops m.relayer_queue) [
    | inl (empty, p) ↦ rw (p, get_active_relayer) ((λ _. empty), (λ _. refl))
    | inr (item, rest, front, p) ↦
        rw (p, get_active_relayer)
          (ground (
            arith,
            h.known item.address,
            ap (occurrences item.address) front,
            str_eq_refl item.address,
          ))
  ]

  -- In every state that the manager's calls can reach, whatever the services answer, a relayer that
  -- getActiveRelayer hands out stood once in the queue and not in the processing map; afterwards it
  -- is out of the queue and in the processing map. The wallet derivation gives distinct addresses, and the
  -- manager has a queue of its own that began empty.
  pub get_active_relayer-IsExclusive :
      (distinct : (seed : String) → HasDistinctAddresses svc seed) (options : RelayerManagerOptions)
      (w : svc.World) (t : State svc.World) (relayer : Account)
      → Reach svc (new_state svc options w) t
      → (get_active_relayer t.manager).0 ≡ some relayer
      → IsExclusive relayer t.manager (get_active_relayer t.manager).1
  get_active_relayer-IsExclusive distinct options w t relayer r e =
      hand_out-IsExclusive t.manager relayer
        (Reach-IsConsistent svc distinct nothing r (new_state-IsWellFormed svc options w)) e

  -- In every state that the manager's calls can reach, getActiveRelayer gives no relayer exactly when
  -- the queue is empty. The wallet derivation gives distinct addresses, and the manager has a queue of
  -- its own that began empty.
  pub get_active_relayer-none_iff :
      (distinct : (seed : String) → HasDistinctAddresses svc seed) (options : RelayerManagerOptions)
      (w : svc.World) (t : State svc.World)
      → Reach svc (new_state svc options w) t
      → ((get_active_relayer t.manager).0 ≡ none) ↔ (t.manager.relayer_queue.items ≡ [])
  get_active_relayer-none_iff distinct options w t r =
      active_relayer-none_iff t.manager
        (Reach-IsConsistent svc distinct nothing r (new_state-IsWellFormed svc options w))
