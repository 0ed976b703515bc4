-- ===== src/Types.antt =====
-- common/types, common/gas-price/types: the data that the components exchange.
use relayer_node.Base.{ℕ, String, Option, List}
use relayer_node.Exec.{JsError}

pub data TransactionType : Type 0 where
  aa scw cross_chain funding : TransactionType

pub data TransactionMethodType : Type 0 where
  scw aa cross_chain : TransactionMethodType

pub data SocketEventType : Type 0 where
  on_transaction_hash_generated on_transaction_hash_changed : SocketEventType
  on_transaction_mined on_transaction_error : SocketEventType

pub data TransactionStatus : Type 0 where
  in_process pending success failed dropped : TransactionStatus

pub data GasPriceType : Type 0 where
  default medium fast : GasPriceType

-- A string, or the pair of the fees of EIP-1559.
pub data NetworkBasedGasPrice : Type 0 where
  legacy : String → NetworkBasedGasPrice
  eip1559 : (max_priority_fee_per_gas max_fee_per_gas : String) → NetworkBasedGasPrice

-- What comes back from the network service: the value, or an Error object in its place.
pub data Fetched {ℓ} (A : Type ℓ) : Type ℓ where
  fetched : A → Fetched A
  failed_with : JsError → Fetched A

pub record AccessListItem : Type 0 where
  pub address : String
  pub storage_keys : List String

-- EVMRawTransactionType. The nonce is declared a number, and is what the nonce manager gave.
pub record EvmRawTransaction : Type 0 where
  pub from : String
  pub gas_price : Option String
  pub max_priority_fee_per_gas : Option String
  pub max_fee_per_gas : Option String
  pub gas_limit : String
  pub to : String
  pub value : String
  pub call_data : String
  pub chain_id : ℕ
  pub nonce : Fetched ℕ
  pub access_list : Option (List AccessListItem)
  pub type : Option ℕ

-- EVMAccount, without the signer that the private key makes.
pub record Account : Type 0 where
  pub public_key : String
  pub private_key : String

-- ethers.providers.TransactionResponse: the fields that the program reads. A BigNumber that is read
-- by its `_hex` only is that text; the transactions of the program all have a `to`.
pub record TransactionResponse : Type 0 where
  pub hash : String
  pub from : String
  pub gas_price : Option ℕ
  pub nonce : ℕ
  pub gas_limit : String
  pub to : String
  pub value : String
  pub call_data : String

-- ethers.providers.TransactionReceipt: a receipt from before the fork Byzantium has no status.
pub record TransactionReceipt : Type 0 where
  pub transaction_hash : String
  pub from : String
  pub status : Option ℕ

-- TransactionQueueMessageType
pub record TransactionQueueMessage : Type 0 where
  pub transaction_id : String
  pub event : SocketEventType
  pub relayer_manager_name : String
  pub transaction_hash : Option String
  pub receipt : Option TransactionResponse
  pub error : Option String

-- RetryTransactionQueueData; `meta_data` is the API key of the dapp.
pub record RetryTransactionQueueData : Type 0 where
  pub relayer_address : String
  pub transaction_type : TransactionType
  pub transaction_hash : String
  pub transaction_id : String
  pub raw_transaction : EvmRawTransaction
  pub wallet_address : String
  pub meta_data : Option String
  pub relayer_manager_name : String
  pub event : SocketEventType
