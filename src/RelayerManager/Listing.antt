-- ===== src/RelayerManager/Listing.antt =====
-- What getRelayers gives in the states of a manager.
use relayer_node.Base.{
  ◌<◌, String, ◌≡◌, refl, List, [], ◌∷◌, arith, inl, inr, ◌⊎◌, Option-cases, eq_iff, str_eq_refl,
}
use relayer_node.Js.Dict.{Dict, lookup, keys}
use relayer_node.Exec.{Result, returned, thrown, type_error}
use relayer_node.Types.{Account}
use relayer_node.RelayerQueue.{RelayerMetaData, get, find, size}
use relayer_node.RelayerQueue.Members.{occurrences, find-none, get-find, pop-Pops}
use relayer_node.RelayerManager.State.{RelayerManager, RelayerManagerOptions, Services, State}
use relayer_node.RelayerManager.Operations.{read_relayers, get_relayers}
use relayer_node.RelayerManager.Consistency.{present, IsWellFormed, nothing, HasDistinctAddresses}
use relayer_node.RelayerManager.Lifecycle.{
  Reach, new_state, new_state-IsWellFormed, Reach-IsConsistent,
}

abbrev pub set_of_undefined : Result (Dict RelayerMetaData)
set_of_undefined = thrown (type_error "Cannot set properties of undefined (setting 'balance')")

read_relayers-of_empty :
    (relayers : List String) (m : RelayerManager)
    → m.relayer_queue.items ≡ []
    → read_relayers relayers m ≡ returned []
unfolding read_relayers find
read_relayers-of_empty [] m h = refl
read_relayers-of_empty (a ∷ l) m h =
    rw (read_relayers, get-find m.relayer_queue a, h) (read_relayers-of_empty l m h)

-- A known relayer in the queue makes the loop throw, wherever it is among the others.
read_relayers-of_known :
    (d : Dict Account) (a : String) (m : RelayerManager)
    → present (lookup a d) ≡ 1
    → 0 < occurrences a m.relayer_queue.items
    → read_relayers (keys d) m ≡ set_of_undefined
unfolding read_relayers lookup
read_relayers-of_known [] a m known queued = absurd (omega arith)
read_relayers-of_known ((k, v) ∷ d) a m known queued = elim (Option-cases (get m.relayer_queue k)) [
  | inl e ↦
      rw (read_relayers, e)
        (read_relayers-of_known d a m
          (ground
            (arith, eq_iff k a, get-find m.relayer_queue k, find-none k m.relayer_queue.items))
          queued)
  | inr (r, e) ↦ rw (read_relayers, e) refl
]

module _ (svc : Services) where
  get_relayers-of_first :
      (m : RelayerManager) (item : RelayerMetaData) (rest : List RelayerMetaData)
      → IsWellFormed svc m
      → m.relayer_queue.items ≡ item ∷ rest
      → get_relayers m ≡ set_of_undefined
  unfolding get_relayers occurrences
  get_relayers-of_first m item rest h e =
      read_relayers-of_known m.relayer_map item.address m
        (h.known item.address (ground (arith, str_eq_refl item.address)))
        (ground (arith, str_eq_refl item.address))

  -- In every state that a manager with a queue of its own gets into, getRelayers gives no relayer: an
  -- empty answer where the queue is empty, and a TypeError otherwise.
  get_relayers-of_reachable :
      (distinct : (seed : String) → HasDistinctAddresses svc seed) (options : RelayerManagerOptions)
      (w : svc.World) (s : State svc.World)
      → Reach svc (new_state svc options w) s
      → ((s.manager.relayer_queue.items ≡ []) × (get_relayers s.manager ≡ returned []))
        ⊎ ((0 < size s.manager.relayer_queue) × (get_relayers s.manager ≡ set_of_undefined))
  unfolding get_relayers size
  get_relayers-of_reachable distinct options w s r = elim (pop-Pops s.manager.relayer_queue) [
    | inl (e, _) ↦ inl (e, read_relayers-of_empty (keys s.manager.relayer_map) s.manager e)
    | inr (item, rest, e, _) ↦ inr (
      rw e (omega arith),
      get_relayers-of_first s.manager item rest
          (Reach-IsConsistent svc distinct nothing r (new_state-IsWellFormed svc options w)) e,
    )
  ]
