-- ===== src/Backend.antt =====
-- The services of one chain that the transaction services share, and their state. Each service
-- changes its own part of the state only.
use relayer_node.Base.{ℕ, String, Bool, Option, List, ◌≡◌, ◌++◌, [], ◌∷◌}
use relayer_node.Exec.{returned, Exec}
use relayer_node.Types.{
  TransactionType, EvmRawTransaction, TransactionResponse, TransactionQueueMessage,
  RetryTransactionQueueData,
}
use relayer_node.Js.Text.{◌&◌, to_string}
use relayer_node.Cache.{CacheService}
use relayer_node.Network.{NetworkService}
use relayer_node.TransactionDao.{Collection}

-- IQueue: the channel of the message broker, for messages of one type.
pub record QueueService (M : Type 0) : Type 1 where
  pub Channel : Type 0
  pub publish : M → Exec Channel Bool
  pub ack : M → Exec Channel (Unit {0})

-- A channel that is open takes every message, after those it has taken before.
pub record QueueLaws {M : Type 0} (q : QueueService M) : Type 0 where
  pub messages : q.Channel → List M
  pub publish-messages :
      (m : M) (w : q.Channel)
      → ((b : Bool) × ((q.publish m w).0 ≡ returned b))
        × (messages (q.publish m w).1 ≡ messages w ++ m ∷ [])
  pub ack-messages :
      (m : M) (w : q.Channel)
      → ((q.ack m w).0 ≡ returned tt) × (messages (q.ack m w).1 ≡ messages w)

-- NotifyTransactionListenerParamsType
pub record NotifyParams : Type 0 where
  pub transaction_execution_response : Option TransactionResponse
  pub transaction_id : String
  pub relayer_address : String
  pub transaction_type : TransactionType
  pub previous_transaction_hash : Option String
  pub raw_transaction : EvmRawTransaction
  pub wallet_address : String
  pub meta_data : Option String
  pub relayer_manager_name : String
  pub error : Option String

pub record Backend : Type 1 where
  pub chain_id : ℕ
  pub cache : CacheService
  pub network : NetworkService
  pub transaction_queue : QueueService TransactionQueueMessage
  pub retry_transaction_queue : QueueService RetryTransactionQueueData
  pub collection : Collection
  -- NotificationManager: a message to Slack
  pub Slack : Type 0
  pub send_slack_notification : String → Exec Slack (Unit {0})
  -- EIP1559SupportedNetworks
  pub eip1559_supported_networks : List ℕ
  -- config.transaction.retryCount[transactionType] of this chain; `none` is undefined
  pub max_retry_count : TransactionType → Option ℕ
  -- config.transaction.bumpGasPriceMultiplier of this chain
  pub bump_gas_price_multiplier : Option ℕ
  -- config.transaction.errors of this chain
  pub nonce_error : Option String
  pub replacement_underpriced : String
  pub already_known : String
  pub insufficient_funds : String
  -- ethers.BigNumber.from of a text; `none` throws
  pub big_number_from : String → Option ℕ
  -- ethers.utils.hexlify of a number; `none` throws, above 2^53 - 1
  pub hexlify : ℕ → Option String
  pub is_hex_string : String → Bool
  -- ethers.utils.hexValue and BigNumber.toHexString
  pub hex_value : ℕ → String
  pub to_hex_string : ℕ → String

-- The state, with the clock, and the notifications whose transactions are waited for.
pub record State (b : Backend) : Type 0 where
  pub cache : b.cache.Cache
  pub network : b.network.Net
  pub transaction_queue : b.transaction_queue.Channel
  pub retry_transaction_queue : b.retry_transaction_queue.Channel
  pub database : b.collection.Database
  pub slack : b.Slack
  pub now : ℕ
  pub waiting_for : List NotifyParams

module _ {ℓ} {b : Backend} {A : Type ℓ} where
  abbrev pub on_cache : Exec b.cache.Cache A → Exec (State b) A
  on_cache m s = let (r, w) = m s.cache in (r, record s { cache = w })

  abbrev pub on_network : Exec b.network.Net A → Exec (State b) A
  on_network m s = let (r, w) = m s.network in (r, record s { network = w })

  abbrev pub on_transaction_queue : Exec b.transaction_queue.Channel A → Exec (State b) A
  on_transaction_queue m s =
      let (r, w) = m s.transaction_queue in (r, record s { transaction_queue = w })

  abbrev pub on_retry_queue : Exec b.retry_transaction_queue.Channel A → Exec (State b) A
  on_retry_queue m s =
      let (r, w) = m s.retry_transaction_queue in (r, record s { retry_transaction_queue = w })

  abbrev pub on_database : Exec b.collection.Database A → Exec (State b) A
  on_database m s = let (r, w) = m s.database in (r, record s { database = w })

  abbrev pub on_slack : Exec b.Slack A → Exec (State b) A
  on_slack m s = let (r, w) = m s.slack in (r, record s { slack = w })

-- getRetryTransactionCountKey
unfoldable pub get_retry_transaction_count_key : String → ℕ → String
get_retry_transaction_count_key transaction_id chain_id =
    "RetryTransactionCount_" & transaction_id & "_" & to_string chain_id
