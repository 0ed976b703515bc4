-- ===== src/Consumers/EntryPoints.antt =====
-- The relayer that the AA consumer has taken, and the entry point that it looks for.
use relayer_node.Base.{String, ◌≡◌, refl, none, some, List}
use relayer_node.Exec.{returned, thrown, type_error, ◌>>=◌, or_throw, detach}
use relayer_node.Types.{TransactionType, Account}
use relayer_node.Cache.Laws.{CacheLaws}
use relayer_node.RelayerManager.State.{RelayerManager, Services}
use relayer_node.RelayerManager.Operations.{get_active_relayer, add_active_relayer}
use relayer_node.Backend.{Backend, QueueService, get_retry_transaction_count_key}
use relayer_node.Backend as Backends
use relayer_node.TransactionService.{ServiceResponse}
use relayer_node.TransactionService.SendTransaction.{send_transaction}
use relayer_node.Consumers.{
  TransactionMessage, EntryPoint, Consumer, find_entry_point, take_relayer, send_with,
  aa_on_message_received,
}
use relayer_node.Consumers.Relayers.{reset, called}

module _ (svc : Services) (b : Backend) (cache : CacheLaws b.cache)
    (q : QueueService TransactionMessage) where
  -- A message for an entry point that the configuration of the chain does not have makes the AA
  -- consumer throw after it has taken a relayer: the relayer is not given back, nothing is sent, and
  -- the message has been acknowledged.
  aa_on_message_received-of_unknown :
      (es : List EntryPoint) (message : TransactionMessage) (relayer : Account) (m : RelayerManager)
      (s : Consumer svc b q)
      → get_active_relayer s.manager.manager ≡ (some relayer, m)
      → find_entry_point message.transaction.to es ≡ none
      → aa_on_message_received svc b q (some es) (some message) s ≡ (
        thrown (type_error "Cannot read properties of undefined (reading 'populateTransaction')"),
        called svc b cache q message m s.backend s,
      )
  unfolding aa_on_message_received take_relayer detach or_throw ◌>>=◌
  aa_on_message_received-of_unknown es message relayer m s taken unknown = rw (taken, unknown) refl

  -- For an entry point that is there, the transaction is sent with the call data of handleOps for the
  -- relayer as beneficiary, and the relayer is given back whatever the answer is.
  aa_on_message_received-gives_back :
      (es : List EntryPoint) (e : EntryPoint) (message : TransactionMessage) (relayer : Account)
      (m : RelayerManager) (call_data : String) (response : ServiceResponse) (t : Backends.State b)
      (s : Consumer svc b q)
      → get_active_relayer s.manager.manager ≡ (some relayer, m)
      → find_entry_point message.transaction.to es ≡ some e
      → e.handle_ops message.user_op relayer.public_key ≡ returned call_data
      → send_transaction b
          (record message.transaction { call_data = call_data })
          relayer
          TransactionType.aa
          m.name
          (reset b message.transaction s.backend)
        ≡ (returned response, t)
      → let u = called svc b cache q message m t s in
        aa_on_message_received svc b q (some es) (some message) s ≡ (
          returned tt,
          record u { manager = (add_active_relayer svc relayer.public_key u.manager).1 },
        )
  unfolding aa_on_message_received send_with take_relayer detach or_throw ◌>>=◌
  aa_on_message_received-gives_back es e message relayer m call_data response t s taken known
        encoded answers =
      let key = get_retry_transaction_count_key message.transaction.transaction_id b.chain_id in
      rw (taken, known, encoded, (cache.set-view key "0" s.backend.cache).0, answers) refl
