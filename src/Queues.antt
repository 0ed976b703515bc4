-- ===== src/Queues.antt =====
-- common/queue: the four queues of a chain, over a channel of the message broker. AATransactionQueue,
-- SCWTransactionQueue, TransactionHandlerQueue and RetryTransactionHandlerQueue have the same methods
-- but for their names, the delay of the retry queue, and its test for a channel.
pub mod Names
pub mod Wiring
pub mod Routing
pub mod Service
use relayer_node.Base.{ℕ, String, Bool, true, false, Option, none, some, if◌then◌else◌}
use relayer_node.Js.Text.{◌&◌, to_string}
use relayer_node.Exec.{
  JsError, Exec, ◌>>=◌, ◌>>◌, pure, gets, modify, throw, try_catch, type_error, detach,
}

pub data QueueKind : Type 0 where
  aa scw transaction_handler retry : QueueKind

-- exchangeName
unfoldable pub exchange_name : QueueKind → String
exchange_name aa = "relayer_queue_exchange_AA"
exchange_name scw = "relayer_queue_exchange_SCW"
exchange_name transaction_handler = "transaction_queue_exchange"
exchange_name retry = "retry_transaction_queue_exchange"

-- exchangeType
unfoldable pub exchange_type : QueueKind → String
exchange_type retry = "x-delayed-message"
exchange_type _ = "direct"

-- The key of a queue's messages.
unfoldable pub routing_key : QueueKind → ℕ → String
routing_key aa chain_id = "chainid." & to_string chain_id & ".type.AA"
routing_key scw chain_id = "chainid." & to_string chain_id & ".type.SCW"
routing_key transaction_handler chain_id = "chainid." & to_string chain_id
routing_key retry chain_id = "retry_chainid." & to_string chain_id

-- The name that assertQueue is called with.
unfoldable pub queue_name : QueueKind → ℕ → String
queue_name aa chain_id = "relayer_queue_" & to_string chain_id & "_type_AA"
queue_name scw chain_id = "relayer_queue_SCW_" & to_string chain_id
queue_name transaction_handler chain_id = "transaction_queue_" & to_string chain_id
queue_name retry chain_id = "retry_transaction_queue_" & to_string chain_id

-- The package amqplib with its broker.
pub record Amqp : Type 1 where
  pub Broker : Type 0
  pub connect : (url : String) → Exec Broker (Unit {0})
  pub create_channel : Exec Broker (Unit {0})
  pub assert_exchange : (exchange type : String) → Exec Broker (Unit {0})
  pub prefetch : ℕ → Exec Broker (Unit {0})
  pub assert_queue : String → Exec Broker String
  pub bind_queue : (queue exchange key : String) → Exec Broker (Unit {0})
  pub consume : String → Exec Broker (Unit {0})
  pub publish : (exchange key content : String) (delay : Option ℕ) → Exec Broker Bool
  pub ack : (content : String) → Exec Broker (Unit {0})

-- A queue's field `channel`, that is whether there is one, and the broker.
pub record QueueState (B : Type 0) : Type 0 where
  pub has_channel : Bool
  pub broker : B

abbrev no_channel : String → JsError
no_channel method = type_error ("Cannot read properties of undefined (reading '" & method & "')")

module _ (amqp : Amqp) where
  open amqp use {Broker}

  abbrev pub on_broker {ℓ} : {A : Type ℓ} → Exec Broker A → Exec (QueueState Broker) A
  on_broker m s = let (r, w) = m s.broker in (r, record s { broker = w })

  abbrev pub open_channel : Bool → QueueKind → Exec (QueueState Broker) (Unit {0})
  open_channel true kind = pure tt
  open_channel false kind = do
    on_broker amqp.create_channel
    modify (λ s. record s { has_channel = true })
    detach (on_broker (amqp.assert_exchange (exchange_name kind) (exchange_type kind)))

  -- connect
  unfoldable pub connect_queue : (url : String) → QueueKind → Exec (QueueState Broker) (Unit {0})
  connect_queue url kind = do
    on_broker (amqp.connect url)
    channel ← gets (λ s. s.has_channel)
    open_channel channel kind

  -- headers: { 'x-delay': … }, of the retry queue
  abbrev pub delay_of : QueueKind → (ℕ → Option ℕ) → ℕ → Option ℕ
  delay_of retry interval chain_id = interval chain_id
  delay_of _ interval chain_id = none

  abbrev pub without_channel : QueueKind → Exec (QueueState Broker) Bool
  without_channel retry = pure false
  without_channel _ = throw (no_channel "publish")

  abbrev pub publish_open :
      Bool → QueueKind → (ℕ → Option ℕ) → ℕ → String → Exec (QueueState Broker) Bool
  publish_open false kind interval chain_id content = without_channel kind
  publish_open true kind interval chain_id content = do
    on_broker (
        amqp.publish (exchange_name kind) (routing_key kind chain_id) content
          (delay_of kind interval chain_id))
    pure true

  -- publish, of a message by its JSON; `interval` is config.chains.retryTransactionInterval
  unfoldable pub publish_message :
      QueueKind
      → (interval : ℕ → Option ℕ) (chain_id : ℕ) (content : String) → Exec (QueueState Broker) Bool
  publish_message kind interval chain_id content = do
    channel ← gets (λ s. s.has_channel)
    publish_open channel kind interval chain_id content

  -- The `try` of consume.
  unfoldable pub set_up_consumer : QueueKind → (chain_id : ℕ) → Exec (QueueState Broker) Bool
  set_up_consumer kind chain_id =
      try_catch
        (do
          queue ← on_broker (amqp.assert_queue (queue_name kind chain_id))
          detach
              (on_broker (amqp.bind_queue queue (exchange_name kind) (routing_key kind chain_id)))
          on_broker (amqp.consume queue)
          pure true)
        (λ _. pure false)

  abbrev pub consume_open : Bool → QueueKind → ℕ → Exec (QueueState Broker) Bool
  consume_open false kind chain_id = throw (no_channel "prefetch")
  consume_open true kind chain_id = do
    detach (on_broker (amqp.prefetch 1))
    set_up_consumer kind chain_id

  -- consume
  unfoldable pub consume_queue : QueueKind → (chain_id : ℕ) → Exec (QueueState Broker) Bool
  consume_queue kind chain_id = do
    channel ← gets (λ s. s.has_channel)
    consume_open channel kind chain_id

  abbrev pub ack_open : Bool → String → Exec (QueueState Broker) (Unit {0})
  ack_open false content = throw (no_channel "ack")
  ack_open true content = on_broker (amqp.ack content)

  -- ack
  unfoldable pub ack_message : (content : String) → Exec (QueueState Broker) (Unit {0})
  ack_message content = do channel ← gets (λ s. s.has_channel); ack_open channel content
