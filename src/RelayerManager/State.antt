-- ===== src/RelayerManager/State.antt =====
-- The state of a relayer manager, and the services that it is constructed with.
use relayer_node.Base.{ℕ, String, Bool, true, false, Option, [], length}
use relayer_node.Js.Dict.{Dict, keys}
use relayer_node.Exec.{returned, waiting, Exec}
use relayer_node.Types.{NetworkBasedGasPrice, TransactionType, Account}
use relayer_node.RelayerQueue
use relayer_node.RelayerQueue.{RelayerQueue, RelayerMetaData}

-- The fields of EVMRelayerManager but for the services. The funding amount is a number, kept as the
-- text that `toString` gives.
pub record RelayerManager : Type 0 where
  pub name : String
  pub chain_id : ℕ
  pub min_relayer_count : ℕ
  pub max_relayer_count : ℕ
  pub inactive_relayer_count_threshold : ℕ
  pub pending_transaction_count_threshold : ℕ
  pub new_relayer_instance_count : ℕ
  pub funding_balance_threshold : ℕ
  pub funding_relayer_amount : String
  pub relayer_seed : String
  pub owner_account_details : Account
  pub gas_limit_map : ℕ → Option ℕ
  pub relayer_queue : RelayerQueue
  pub relayer_map : Dict Account
  pub transaction_processing_relayer_map : Dict RelayerMetaData

-- The options that a manager is constructed with.
pub record RelayerManagerOptions : Type 0 where
  pub name : String
  pub chain_id : ℕ
  pub relayer_seed : String
  pub min_relayer_count : ℕ
  pub max_relayer_count : ℕ
  pub inactive_relayer_count_threshold : ℕ
  pub pending_transaction_count_threshold : ℕ
  pub new_relayer_instance_count : ℕ
  pub funding_balance_threshold : ℕ
  pub funding_relayer_amount : String
  pub gas_limit_map : ℕ → Option ℕ
  pub owner_account_details : Account

-- constructor: both maps begin empty.
abbrev pub new_relayer_manager : RelayerManagerOptions → RelayerQueue → RelayerManager
new_relayer_manager options relayer_queue = record {
  name = options.name;
  chain_id = options.chain_id;
  min_relayer_count = options.min_relayer_count;
  max_relayer_count = options.max_relayer_count;
  inactive_relayer_count_threshold = options.inactive_relayer_count_threshold;
  pending_transaction_count_threshold = options.pending_transaction_count_threshold;
  new_relayer_instance_count = options.new_relayer_instance_count;
  funding_balance_threshold = options.funding_balance_threshold;
  funding_relayer_amount = options.funding_relayer_amount;
  relayer_seed = options.relayer_seed;
  owner_account_details = options.owner_account_details;
  gas_limit_map = options.gas_limit_map;
  relayer_queue = relayer_queue;
  relayer_map = [];
  transaction_processing_relayer_map = [];
}

-- The keys that an index of the relayer seed's wallet has: the address with its checksum.
pub record WalletKeys : Type 0 where
  pub eth_address : String
  pub private_key : String

-- The transaction that funds a relayer.
pub record FundingTransaction : Type 0 where
  pub from : String
  pub call_data : String
  pub gas_price : String
  pub gas_limit : String
  pub to : String
  pub value : String
  pub nonce : String
  pub chain_id : ℕ
  pub transaction_id : String
  pub wallet_address : String

-- The services, and the packages that the manager calls: `World` is their state.
pub record Services : Type 1 where
  pub World : Type 0
  pub get_balance : String → Exec World ℕ
  pub get_nonce : String → Exec World ℕ
  pub get_gas_price : Exec World NetworkBasedGasPrice
  pub send_transaction :
      FundingTransaction → Account → TransactionType → String → Exec World (Unit {0})
  pub generate_transaction_id : FundingTransaction → Exec World String
  -- config.relayer.nodePathIndex
  pub node_path_index : ℕ
  -- hdkey and ethereumjs-util: seed and path to the keys; `none` throws
  pub derive : String → String → Option WalletKeys
  -- ethers.BigNumber.from of a text; `none` throws
  pub big_number_from : String → Option ℕ
  pub to_hex_string : ℕ → String
  -- ethers.utils.parseEther; `none` throws
  pub parse_ether : String → Option ℕ

-- The manager with the two mutexes of its module and the state of its services.
pub record State (W : Type 0) : Type 0 where
  pub manager : RelayerManager
  pub create_relayer_mutex : Bool
  pub fund_relayer_mutex : Bool
  pub world : W

module _ {W : Type 0} where
  -- A call of a service.
  abbrev pub service {ℓ} : {A : Type ℓ} → Exec W A → Exec (State W) A
  service m s = let (r, w) = m s.world in (r, record s { world = w })

  abbrev pub update : (RelayerManager → RelayerManager) → Exec (State W) (Unit {0})
  update f s = (returned tt, record s { manager = f s.manager })

  abbrev pub acquire : Bool → Exec (State W) (Unit {0}) → Exec (State W) (Unit {0})
  acquire true take s = (waiting, s)
  acquire false take s = take s

  -- createRelayerMutex.acquire(): a mutex that is held is waited for.
  unfoldable pub acquire_create : Exec (State W) (Unit {0})
  acquire_create s =
      acquire s.create_relayer_mutex (λ t. (returned tt, record t { create_relayer_mutex = true }))
        s

  unfoldable pub release_create : Exec (State W) (Unit {0})
  release_create s = (returned tt, record s { create_relayer_mutex = false })

  -- fundRelayerMutex.acquire()
  unfoldable pub acquire_fund : Exec (State W) (Unit {0})
  acquire_fund s =
      acquire s.fund_relayer_mutex (λ t. (returned tt, record t { fund_relayer_mutex = true })) s

  unfoldable pub release_fund : Exec (State W) (Unit {0})
  release_fund s = (returned tt, record s { fund_relayer_mutex = false })

-- getRelayersCount(active)
unfoldable pub get_relayers_count : Bool → RelayerManager → ℕ
get_relayers_count true m = RelayerQueue.size m.relayer_queue
get_relayers_count false m = length (keys m.relayer_map)
