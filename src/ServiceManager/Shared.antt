-- ===== src/ServiceManager/Shared.antt =====
-- The managers of a chain have one queue of relayers, and each has its own accounts.
use relayer_node.Base.{String, ◌≡◌, refl, ◌∙◌, Option, none, some, str_eq_refl}
use relayer_node.Js.Dict.{Dict, lookup, insert, lookup-insert}
use relayer_node.Exec.{Exec, returned, ◌>>=◌, or_throw}
use relayer_node.Types.{Account}
use relayer_node.RelayerQueue
use relayer_node.RelayerQueue.{RelayerQueue, RelayerMetaData}
use relayer_node.RelayerManager.State as Managers
use relayer_node.RelayerManager.State.{RelayerManager, Services}
use relayer_node.RelayerManager.Operations.{get_active_relayer}
use relayer_node.Queues.{Amqp}
use relayer_node.ServiceManager.{Setup}
use relayer_node.ServiceManager.SetUp.{on_manager, the_manager}

inserted {ℓ} : {V : Type ℓ} (k : String) (v : V) (d : Dict V) → lookup k (insert k v d) ≡ some v
inserted k v d = lookup-insert k k v d ∙ rw (str_eq_refl k) refl

module _ (svc : Services) (amqp : Amqp) where
  abbrev take : Exec (Managers.State svc.World) (Option Account)
  take s =
      let (account, m) = get_active_relayer s.manager in
      (returned account, record s { manager = m })

  -- A consumer's call of getActiveRelayer of its manager.
  unfoldable pub active_relayer_of : String → Exec (Setup svc amqp) (Option Account)
  active_relayer_of name = do m ← the_manager svc amqp name; on_manager svc amqp m take

  -- Where the relayer that the shared queue gives next is another manager's, getActiveRelayer has no
  -- account for it and gives none, though it takes the relayer out of the queue: the manager holds it
  -- as one that processes a transaction, and no consumer has got it to give it back.
  pub active_relayer_of-foreign :
      (m : RelayerManager) (r : RelayerMetaData) (rest : RelayerQueue) (s : Setup svc amqp)
      → lookup m.name s.relayer_managers ≡ some m
      → RelayerQueue.pop s.relayer_queue ≡ (some r, rest)
      → lookup r.address m.relayer_map ≡ none
      → let t = active_relayer_of m.name s in
        (t.0 ≡ returned none)
        × (t.1.relayer_queue ≡ rest)
        × ((after : RelayerManager) × (lookup m.name t.1.relayer_managers ≡ some after)
            × ((held : RelayerMetaData) × (lookup r.address after.transaction_processing_relayer_map
                  ≡ some held)))
  unfolding active_relayer_of on_manager get_active_relayer or_throw ◌>>=◌
  active_relayer_of-foreign m r rest s known popped foreign =
      rw (known, popped, foreign)
        (refl, refl, (_, inserted m.name _ _, (_, inserted r.address _ _)))
