-- ===== src/Consumers/Relayers.antt =====
-- What becomes of the relayer that a consumer has taken.
use relayer_node.Base.{String, true, ltb_ℤ, ◌≡◌, ◌∙◌, refl, none, some, [], ◌∷◌, ◌++◌, ap}
use relayer_node.Exec.{returned, ◌>>=◌, detach}
use relayer_node.Types.{TransactionType, Account}
use relayer_node.Cache.Laws.{CacheLaws}
use relayer_node.Js.Dict.{lookup}
use relayer_node.RelayerQueue.{RelayerMetaData}
use relayer_node.RelayerQueue.Members.{occurrences}
use relayer_node.RelayerManager.State.{RelayerManager, RelayerManagerOptions, Services, State}
use relayer_node.RelayerManager.Consistency.{present, HasDistinctAddresses}
use relayer_node.RelayerManager.Lifecycle.{Reach, new_state}
use relayer_node.RelayerManager.Lifecycle.TakenBack.{given_back-IsQueued}
use relayer_node.RelayerManager.Operations.{get_active_relayer, add_active_relayer}
use relayer_node.Backend.{Backend, QueueService, QueueLaws, get_retry_transaction_count_key}
use relayer_node.Backend as Backends
use relayer_node.TransactionService.{TransactionDataType, ServiceResponse}
use relayer_node.TransactionService.SendTransaction.{send_transaction}
use relayer_node.Consumers.{
  TransactionMessage, Consumer, take_relayer, send_with, scw_on_message_received,
}

-- The backend when the count of the transaction's retries is set to zero.
abbrev pub reset : (b : Backend) → TransactionDataType → Backends.State b → Backends.State b
reset b d s = record s {
  cache = (b.cache.set (get_retry_transaction_count_key d.transaction_id b.chain_id) "0" s.cache).1;
}

module _ (svc : Services) (b : Backend) (cache : CacheLaws b.cache)
    (q : QueueService TransactionMessage) where
  -- The consumer's state when the message has been acknowledged, the relayer taken, and the
  -- transaction service called.
  abbrev pub called :
      TransactionMessage → RelayerManager → Backends.State b → Consumer svc b q → Consumer svc b q
  called message m backend s = record s {
    queue = (q.ack message s.queue).1;
    manager = record s.manager { manager = m };
    backend = backend;
  }

  returned_lem :
      (message : TransactionMessage) (relayer : Account) (response : ServiceResponse)
      (t : Backends.State b) (s : Consumer svc b q)
      → let m = (get_active_relayer s.manager.manager).1 in
        let u = called message m t s in
        (get_active_relayer s.manager.manager).0 ≡ some relayer
        → send_transaction b message.transaction relayer TransactionType.scw m.name
            (reset b message.transaction s.backend)
          ≡ (returned response, t)
        → scw_on_message_received svc b q (some message) s ≡ (
          returned tt,
          record u { manager = (add_active_relayer svc relayer.public_key u.manager).1 },
        )
  unfolding scw_on_message_received send_with take_relayer detach ◌>>=◌
  returned_lem message relayer response t s taken answers =
      let key = get_retry_transaction_count_key message.transaction.transaction_id b.chain_id in
      rw (taken, (cache.set-view key "0" s.backend.cache).0, answers) refl

  module _ (distinct : (seed : String) → HasDistinctAddresses svc seed)
      (options : RelayerManagerOptions) (w : svc.World) where
    -- When sendTransaction returns, whatever its answer is, the relayer that was taken is given back:
    -- if it has fewer pending transactions than the threshold, this one included, it stands once in
    -- the queue and is out of the processing map when the consumer is done. Before, the manager was
    -- in a state that its calls reach.
    pub scw_on_message_received-gives_back :
        (message : TransactionMessage) (relayer : Account) (r : RelayerMetaData)
        (response : ServiceResponse) (t : Backends.State b) (s : Consumer svc b q)
        → let m = (get_active_relayer s.manager.manager).1 in
          let v = (scw_on_message_received svc b q (some message) s).1.manager.manager in
          Reach svc (new_state svc options w) s.manager
          → (get_active_relayer s.manager.manager).0 ≡ some relayer
          → lookup relayer.public_key m.transaction_processing_relayer_map ≡ some r
          → ltb_ℤ r.pending_count m.pending_transaction_count_threshold ≡ true
          → send_transaction b message.transaction relayer TransactionType.scw m.name
              (reset b message.transaction s.backend)
            ≡ (returned response, t)
          → ((scw_on_message_received svc b q (some message) s).0 ≡ returned tt)
            × (occurrences relayer.public_key v.relayer_queue.items ≡ 1)
            × (present (lookup relayer.public_key v.transaction_processing_relayer_map) ≡ 0)
    scw_on_message_received-gives_back message relayer r response t s before taken busy below
          answers =
        let (queued, free) =
          given_back-IsQueued svc distinct options w s.manager relayer r before taken busy below in
        rw (returned_lem message relayer response t s taken answers) (refl, queued, free)

  -- Where no relayer is free, the message is acknowledged and published again, and neither the
  -- transaction service nor the cache is called.
  scw_on_message_received-of_none :
      (messages : QueueLaws q) (message : TransactionMessage) (m : RelayerManager)
      (s : Consumer svc b q)
      → get_active_relayer s.manager.manager ≡ (none, m)
      → let r = scw_on_message_received svc b q (some message) s in
        (r.0 ≡ returned tt)
        × (messages.messages r.1.queue ≡ messages.messages s.queue ++ message ∷ [])
        × (r.1.backend ≡ s.backend)
  unfolding scw_on_message_received take_relayer detach ◌>>=◌
  scw_on_message_received-of_none messages message m s taken = rw taken (
    refl,
    (messages.publish-messages message (q.ack message s.queue).1).1
        ∙ ap (λ l. l ++ message ∷ []) (messages.ack-messages message s.queue).1,
    refl,
  )
