-- ===== src/ServiceManager.antt =====
-- common/service-manager/index.ts: how the services of a chain are set up, in order, by the chain's
-- turn of the loop. The services that the loop constructs hold no state but what is kept here; the
-- timers that it starts, and the queues' handlers, run afterwards.
pub mod SetUp
pub mod Routes
pub mod Shared
use relayer_node.Base.{
  ℕ, String, Bool, true, false, ◌||◌, Option, none, some, List, [], ◌∷◌, ◌++◌, ◌==◌, str_eq,
  if◌then◌else◌,
}
use relayer_node.Js.Text.{◌&◌, to_string}
use relayer_node.Js.Dict.{Dict, lookup, insert}
use relayer_node.Exec.{Exec, ◌>>=◌, ◌>>◌, pure, modify, gets, or_throw, detach}
use relayer_node.Types.{TransactionType, aa, scw, cross_chain, funding}
use relayer_node.RelayerQueue.{RelayerQueue}
use relayer_node.RelayerManager.State as Managers
use relayer_node.RelayerManager.State.{
  RelayerManager, RelayerManagerOptions, new_relayer_manager, Services,
}
use relayer_node.RelayerManager.Create.{create_relayers}
use relayer_node.RelayerManager.Fund.{fund_relayers}
use relayer_node.Consumers.{EntryPoint}
use relayer_node.Server.Transactions.{relayer_manager_name_of}
use relayer_node.Queues.{QueueKind, Amqp, QueueState, connect_queue, consume_queue}

-- The class that GasPriceManager.setup constructs.
pub data GasPriceService : Type 0 where
  matic goerli mumbai bsc_testnet optimism_goerli arbitrum_goerli avalanche_testnet :
      GasPriceService

-- GasPriceManager.setup
unfoldable pub gas_price_manager_setup : ℕ → Option GasPriceService
gas_price_manager_setup chain_id =
    if chain_id == 137
    then some matic
    else if chain_id == 5
    then some goerli
    else if chain_id == 80001
    then some mumbai
    else if chain_id == 97
    then some bsc_testnet
    else if chain_id == 420
    then some optimism_goerli
    else if chain_id == 421613
    then some arbitrum_goerli
    else if chain_id == 43113
    then some avalanche_testnet
    else none

-- The configuration of a chain.
pub record ChainConfig : Type 0 where
  pub chain_id : ℕ
  pub provider : Option String
  pub relayer_managers : List RelayerManagerOptions
  pub supported_transaction_type : List TransactionType
  pub entry_point_data : List EntryPoint
  pub queue_url : String

-- The maps of the module at the chain, and what the managers and the queues share. The managers have
-- one queue of relayers between them.
pub record Setup (svc : Services) (amqp : Amqp) : Type 0 where
  pub route_transaction_to_relayer : TransactionType → Bool
  pub entry_points : List EntryPoint
  pub relayer_queue : RelayerQueue
  pub relayer_managers : Dict RelayerManager
  pub create_relayer_mutex : Bool
  pub fund_relayer_mutex : Bool
  pub world : svc.World
  pub transaction_queue : Bool
  pub retry_transaction_queue : Bool
  pub aa_queue : Bool
  pub scw_queue : Bool
  pub broker : amqp.Broker

-- An empty text is no value.
abbrev pub given : Option String → Option String
given none = none
given (some text) = if str_eq text "" then none else some text

abbrev pub is_type : TransactionType → TransactionType → Bool
is_type aa aa = true
is_type scw scw = true
is_type cross_chain cross_chain = true
is_type funding funding = true
is_type _ _ = false

-- map[type] = service
abbrev pub with_route : TransactionType → (TransactionType → Bool) → TransactionType → Bool
with_route type routes other = is_type type other || routes other
