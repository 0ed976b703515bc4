-- ===== src/Consumers.antt =====
-- relayer/src/services/consumer: the consumers of the transaction queues, which send a message's
-- transaction with a relayer, and of the queue of events, which tells the clients.
pub mod Relayers
pub mod Allowed
pub mod EntryPoints
pub mod Socket
use relayer_node.Base.{
  ℕ, String, Bool, true, false, Option, none, some, List, [], ◌∷◌, str_eq, if◌then◌else◌,
}
use relayer_node.Js.Text.{to_lower_case, ◌&◌}
use relayer_node.Js.Dict.{Dict, lookup}
use relayer_node.Exec.{
  JsError, Exec, Result, returned, ◌>>=◌, ◌>>◌, pure, throw, gets, try_catch, type_error, or_throw,
  detach,
}
use relayer_node.Types.{
  TransactionType, SocketEventType, Account, TransactionResponse, TransactionQueueMessage,
}
use relayer_node.RelayerManager.State.{RelayerManager, Services}
use relayer_node.RelayerManager.State as Managers
use relayer_node.RelayerManager.Operations.{
  get_active_relayer, add_active_relayer, post_transaction_mined,
}
use relayer_node.Backend.{Backend, QueueService, on_cache, get_retry_transaction_count_key}
use relayer_node.Backend as Backends
use relayer_node.TransactionService.{TransactionDataType, ServiceResponse}
use relayer_node.TransactionService.SendTransaction.{send_transaction}

-- UserOperationType
pub record UserOperation : Type 0 where
  pub sender : String
  pub nonce : String
  pub init_code : String
  pub call_data : String
  pub call_gas_limit : String
  pub verification_gas_limit : String
  pub pre_verification_gas : String
  pub max_fee_per_gas : String
  pub max_priority_fee_per_gas : String
  pub paymaster_and_data : String
  pub signature : String

-- SCWTransactionMessageType, and AATransactionMessageType with its operation: the transaction that
-- the message holds.
pub record TransactionMessage : Type 0 where
  pub transaction : TransactionDataType
  pub user_op : Option UserOperation

-- An entry of entryPointMap: handleOps of the contract at the address gives the call data.
pub record EntryPoint : Type 0 where
  pub address : String
  pub handle_ops : Option UserOperation → String → Result String

-- The consumer's manager, the services of its chain, and its queue.
pub record ConsumerState (svc : Services) (b : Backend) (C : Type 0) : Type 0 where
  pub manager : Managers.State svc.World
  pub backend : Backends.State b
  pub queue : C

-- The first entry point with the address, in any case.
unfoldable pub find_entry_point : String → List EntryPoint → Option EntryPoint
find_entry_point to [] = none
find_entry_point to (e ∷ es) =
    if str_eq (to_lower_case e.address) (to_lower_case to) then some e else find_entry_point to es

module _ (svc : Services) (b : Backend) (q : QueueService TransactionMessage) where
  abbrev pub Consumer : Type 0
  Consumer = ConsumerState svc b q.Channel

  abbrev pub on_manager {ℓ} : {A : Type ℓ} → Exec (Managers.State svc.World) A → Exec Consumer A
  on_manager m s = let (r, t) = m s.manager in (r, record s { manager = t })

  abbrev pub on_backend {ℓ} : {A : Type ℓ} → Exec (Backends.State b) A → Exec Consumer A
  on_backend m s = let (r, t) = m s.backend in (r, record s { backend = t })

  abbrev pub on_queue {ℓ} : {A : Type ℓ} → Exec q.Channel A → Exec Consumer A
  on_queue m s = let (r, t) = m s.queue in (r, record s { queue = t })

  -- await this.relayerManager.getActiveRelayer()
  unfoldable pub take_relayer : Exec Consumer (Option Account)
  take_relayer s =
      let (account, m) = get_active_relayer s.manager.manager in
      (returned account, record s { manager = record s.manager { manager = m } })

  -- The end of both handlers: the count of retries is set, the transaction sent, and the relayer
  -- given back with a call that is not awaited.
  unfoldable pub send_with :
      TransactionType → TransactionDataType → Account → Exec Consumer ServiceResponse
  send_with transaction_type transaction_data relayer = do
    on_backend (
        on_cache (
          b.cache.set (get_retry_transaction_count_key transaction_data.transaction_id b.chain_id)
            "0"))
    name ← gets (λ s. s.manager.manager.name)
    response ← on_backend (send_transaction b transaction_data relayer transaction_type name)
    detach (on_manager (add_active_relayer svc relayer.public_key))
    pure response

  abbrev pub scw_with : TransactionMessage → Option Account → Exec Consumer (Unit {0})
  scw_with message none = do detach (on_queue (q.publish message)); pure tt
  scw_with message (some relayer) = do
    send_with TransactionType.scw message.transaction relayer
    pure tt

  -- SCWConsumer.onMessageReceived
  unfoldable pub scw_on_message_received : Option TransactionMessage → Exec Consumer (Unit {0})
  scw_on_message_received none = throw (type_error "No msg received from queue")
  scw_on_message_received (some message) = do
    detach (on_queue (q.ack message))
    relayer ← take_relayer
    scw_with message relayer

  -- The call data of handleOps with the relayer as beneficiary.
  abbrev pub call_data_for : TransactionMessage → Account → Option EntryPoint → Exec Consumer String
  call_data_for message relayer none s =
      throw (type_error "Cannot read properties of undefined (reading 'populateTransaction')") s
  call_data_for message relayer (some e) s = (e.handle_ops message.user_op relayer.public_key, s)

  -- The entry points of the consumer's chain; `none` is a chain that has no entry.
  abbrev pub aa_with :
      Option (List EntryPoint) → TransactionMessage → Option Account → Exec Consumer (Unit {0})
  aa_with entry_points message none = do
    detach (on_queue (q.publish message))
    throw (type_error "No active relayer")
  aa_with entry_points message (some relayer) = do
    es ← or_throw entry_points "Cannot read properties of undefined (reading 'length')"
    call_data ← call_data_for message relayer (find_entry_point message.transaction.to es)
    send_with TransactionType.aa (record message.transaction { call_data = call_data }) relayer
    pure tt

  -- AAConsumer.onMessageReceived
  unfoldable pub aa_on_message_received :
      Option (List EntryPoint) → Option TransactionMessage → Exec Consumer (Unit {0})
  aa_on_message_received entry_points none = throw (type_error "No msg received from queue")
  aa_on_message_received entry_points (some message) = do
    detach (on_queue (q.ack message))
    relayer ← take_relayer
    aa_with entry_points message relayer
