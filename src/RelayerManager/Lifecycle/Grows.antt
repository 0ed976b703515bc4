-- ===== src/RelayerManager/Lifecycle/Grows.antt =====
-- What the manager does to the places of its relayers where it neither hands out nor takes back.
use relayer_node.Base.{ℕ, zero, suc, String, inl, inr, ◌≤◌, ◌≡◌, refl, arith, Option-cases}
use relayer_node.Js.Dict.{lookup}
use relayer_node.Types.{Account}
use relayer_node.RelayerQueue
use relayer_node.RelayerQueue.{RelayerMetaData}
use relayer_node.RelayerQueue.Members.{occurrences, occurrences-push, occurrences-modify}
use relayer_node.RelayerManager.State.{RelayerManager, Services}
use relayer_node.RelayerManager.Create.{account_at, add_account, derive_relayers, push_relayer}
use relayer_node.RelayerManager.Operations.{write_relayer_data, lookup-write_processing}
use relayer_node.RelayerManager.Consistency.{present}

-- No relayer leaves the queue, and the same addresses are in the processing map.
abbrev pub Grows : RelayerManager → RelayerManager → Type 0
Grows m n =
    (a : String)
    → (occurrences a m.relayer_queue.items ≤ occurrences a n.relayer_queue.items)
      × (present (lookup a n.transaction_processing_relayer_map)
          ≡ present (lookup a m.transaction_processing_relayer_map))

pub push_relayer-Grows :
    (relayer : Account) (nonce balance : ℕ) (m : RelayerManager)
    → Grows m (push_relayer relayer nonce balance m)
push_relayer-Grows relayer nonce balance m a =
    (omega (arith, occurrences-push a m.relayer_queue _), refl)

pub write_relayer_data-Grows :
    (a : String) (g : RelayerMetaData → RelayerMetaData) (m : RelayerManager)
    → ((r : RelayerMetaData) → (g r).address ≡ r.address)
    → Grows m (write_relayer_data a g m)
unfolding write_relayer_data
write_relayer_data-Grows a g m keeps b =
    let modified = occurrences-modify b a g m.relayer_queue.items keeps in
    let written = lookup-write_processing a b g m.transaction_processing_relayer_map in
    elim (Option-cases (RelayerQueue.find a m.relayer_queue.items)) [
      | inr (r, found) ↦ rw (found, write_relayer_data) (omega (arith, modified), refl)
      | inl missing ↦ rw (missing, write_relayer_data) (omega arith, ground (arith, written))
    ]

module _ (svc : Services) where
  pub derive_relayers-Grows :
      (n index : ℕ) (m : RelayerManager) → Grows m (derive_relayers svc n index m).0
  unfolding derive_relayers
  derive_relayers-Grows zero index m a = (omega arith, refl)
  derive_relayers-Grows (suc n) index m a =
      elim (Option-cases (account_at svc m.relayer_seed index)) [
        | inl failed ↦ rw (failed, derive_relayers) (omega arith, refl)
        | inr (relayer, derived) ↦
            rw (derived, derive_relayers)
              (derive_relayers-Grows n (suc index) (add_account relayer m) a)
      ]
