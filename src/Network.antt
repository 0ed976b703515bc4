-- ===== src/Network.antt =====
-- common/network/EVMNetworkService.ts: the calls of a chain's RPC nodes, and INetworkService, which
-- the other services use.
pub mod Errors
use relayer_node.Base.{
  ℕ, ◌-◌, String, Bool, true, false, Option, none, some, List, [], ◌∷◌, ltb, str_eq, if◌then◌else◌,
}
use relayer_node.Js.Text.{to_lower_case, includes, ◌&◌}
use relayer_node.Exec.{
  JsError, Result, returned, thrown, Exec, ◌>>=◌, ◌>>◌, pure, throw, gets, modify, try_catch,
  type_error, or_throw, detach,
}
use relayer_node.Types.{
  NetworkBasedGasPrice, eip1559, Fetched, fetched, failed_with, EvmRawTransaction, Account,
  TransactionResponse, TransactionReceipt,
}

-- RpcMethod, with the parameters of each method.
pub data RpcRequest : Type 0 where
  get_gas_price get_eip1159_gas_price : RpcRequest
  get_balance : (address : String) → RpcRequest
  estimate_gas : (from to call_data : String) → RpcRequest
  get_transaction_receipt : (transaction_hash : String) → RpcRequest
  get_transaction_count : (address : String) (pending_nonce : Bool) → RpcRequest
  send_transaction : (tx : String) → RpcRequest
  wait_for_transaction : (transaction_hash : String) → RpcRequest

pub record FeeData : Type 0 where
  pub max_fee_per_gas : Option ℕ
  pub max_priority_fee_per_gas : Option ℕ

abbrev pub Answer : RpcRequest → Type 0
Answer get_gas_price = ℕ
Answer get_eip1159_gas_price = FeeData
Answer (get_balance _) = ℕ
Answer (estimate_gas _ _ _) = ℕ
Answer (get_transaction_receipt _) = Option TransactionReceipt
Answer (get_transaction_count _ _) = ℕ
Answer (send_transaction _) = TransactionResponse
Answer (wait_for_transaction _) = TransactionReceipt

-- The package ethers and the chain: a provider of a URL answers a request or throws.
pub record Provider : Type 1 where
  pub Chain : Type 0
  pub call : (url : String) (request : RpcRequest) → Exec Chain (Answer request)
  -- contract.allowance(owner, spender) of a token
  pub allowance : (url token owner spender : String) → Exec Chain ℕ
  -- Signer.signTransaction with a private key
  pub sign_transaction : String → EvmRawTransaction → Exec Chain String
  -- ethers.utils.hexValue; `none`, for a value that is null, throws
  pub hex_value : Option ℕ → Option String
  pub to_hex_string : ℕ → String

-- The service's fields: `provider_url` is the URL of the current ethersProvider.
pub record Network (C : Type 0) : Type 0 where
  pub rpc_url : String
  pub provider_url : String
  pub fallback_rpc_urls : List String
  pub chain : C

-- INetworkService: the methods that the services of this development call.
pub record NetworkService : Type 1 where
  pub Net : Type 0
  pub fetch_eip1559_gas_price : Exec Net NetworkBasedGasPrice
  pub fetch_gas_price : Exec Net String
  pub fetch_balance : String → Exec Net (Fetched ℕ)
  pub fetch_nonce : String → Bool → Exec Net (Fetched ℕ)
  pub fetch_transaction_receipt : String → Exec Net (Fetched (Option TransactionReceipt))
  pub submit : EvmRawTransaction → Option Account → Exec Net (Fetched TransactionResponse)
  pub await_transaction : String → Exec Net (Fetched TransactionReceipt)
  pub fetch_gas_estimate : (from to call_data : String) → Exec Net (Fetched ℕ)

-- A Boolean is never identical to a text.
abbrev strict_equals_text : Bool → String → Bool
strict_equals_text b text = false

-- String(error), where the name of the error is Error
unfoldable pub error_text : JsError → String
error_text error = if str_eq error.message "" then "Error" else "Error: " & error.message

-- new Error(error)
abbrev pub wrapped : JsError → JsError
wrapped error = record { message = error_text error }

-- error.toString().toLowerCase().includes() === 'timeout error': an argument that is missing is the
-- text 'undefined'.
unfoldable pub is_timeout : JsError → Bool
is_timeout error =
    strict_equals_text (includes "undefined" (to_lower_case (error_text error))) "timeout error"

-- .toHexString() of a BigNumber; an Error object has no such method.
abbrev pub hex_of : (ℕ → String) → Fetched ℕ → Option String
hex_of to_hex (fetched n) = some (to_hex n)
hex_of to_hex (failed_with e) = none

-- The fields of the fee data; an Error object has neither.
abbrev pub fees : Fetched FeeData → Option ℕ × Option ℕ
fees (fetched d) = (d.max_fee_per_gas, d.max_priority_fee_per_gas)
fees (failed_with e) = (none, none)

module _ (p : Provider) where
  open p use {Chain}

  -- A call of the provider's chain.
  abbrev pub on_chain {ℓ} : {A : Type ℓ} → (String → Exec Chain A) → Exec (Network Chain) A
  on_chain f s = let (r, c) = f s.provider_url s.chain in (r, record s { chain = c })

  unfoldable pub set_provider : String → Exec (Network Chain) (Unit {0})
  set_provider url s = (returned tt, record s { provider_url = url })

  -- The loop over the fallback URLs: each gets a provider, and a call that is not awaited.
  unfoldable pub try_fallbacks : RpcRequest → List String → Exec (Network Chain) (Unit {0})
  try_fallbacks request [] = pure tt
  try_fallbacks request (url ∷ urls) = do
    set_provider url
    detach (on_chain (λ u. p.call u request))
    try_fallbacks request urls

  unfoldable pub on_error : (r : RpcRequest) → JsError → Exec (Network Chain) (Fetched (Answer r))
  on_error request error s =
      (do
        (if is_timeout error then try_fallbacks request s.fallback_rpc_urls else pure tt)
        pure (failed_with (wrapped error)))
        s

  -- useProvider, with withFallbackRetry: the error of a call is returned in a new one, not thrown.
  unfoldable pub use_provider : (r : RpcRequest) → Exec (Network Chain) (Fetched (Answer r))
  use_provider request =
      try_catch (do answer ← on_chain (λ url. p.call url request); pure (fetched answer))
        (on_error request)

  unfoldable pub network_eip1559_gas_price : Exec (Network Chain) NetworkBasedGasPrice
  network_eip1559_gas_price = do
    fee_data ← use_provider get_eip1159_gas_price
    let (max_fee, max_priority_fee) = fees fee_data
    max_fee_per_gas ← or_throw (p.hex_value max_fee) "invalid hexlify value"
    max_priority_fee_per_gas ← or_throw (p.hex_value max_priority_fee) "invalid hexlify value"
    pure (eip1559 max_priority_fee_per_gas max_fee_per_gas)

  unfoldable pub network_gas_price : Exec (Network Chain) String
  network_gas_price = do
    price ← use_provider get_gas_price
    or_throw (hex_of p.to_hex_string price) "toHexString is not a function"

  unfoldable pub network_balance : String → Exec (Network Chain) (Fetched ℕ)
  network_balance address = use_provider (get_balance address)

  unfoldable pub network_nonce : String → Bool → Exec (Network Chain) (Fetched ℕ)
  network_nonce address pending_nonce = use_provider (get_transaction_count address pending_nonce)

  unfoldable pub network_estimate_gas : String → String → String → Exec (Network Chain) (Fetched ℕ)
  network_estimate_gas from to call_data = use_provider (estimate_gas from to call_data)

  unfoldable pub network_transaction_receipt :
      String → Exec (Network Chain) (Fetched (Option TransactionReceipt))
  network_transaction_receipt transaction_hash =
      use_provider (get_transaction_receipt transaction_hash)

  -- account.getPublicKey() and account.signTransaction: an account that is undefined throws. The
  -- assignment to `from` is made to the copy that is signed: the callers' transactions are from that
  -- account already.
  unfoldable pub network_send_transaction :
      EvmRawTransaction → Option Account → Exec (Network Chain) (Fetched TransactionResponse)
  network_send_transaction raw_transaction_data account = do
    a ← or_throw account "Cannot read properties of undefined (reading 'getPublicKey')"
    let raw_tx = record raw_transaction_data { from = a.public_key }
    tx ← on_chain (λ _. p.sign_transaction a.private_key raw_tx)
    use_provider (send_transaction tx)

  unfoldable pub network_wait_for_transaction :
      String → Exec (Network Chain) (Fetched TransactionReceipt)
  network_wait_for_transaction transaction_hash =
      use_provider (wait_for_transaction transaction_hash)

  -- checkAllowance: tokensLeftToSpend.sub(value) > 0
  unfoldable pub check_allowance :
      (token_address owner_address spender_address : String) (value : ℕ) → Exec (Network Chain) Bool
  check_allowance token_address owner_address spender_address value = do
    tokens_left_to_spend ←
        on_chain (λ url. p.allowance url token_address owner_address spender_address)
    pure (ltb value tokens_left_to_spend)

  -- EVMNetworkService as its clients see it.
  abbrev pub evm_network_service : NetworkService
  evm_network_service = record {
    Net = Network Chain;
    fetch_eip1559_gas_price = network_eip1559_gas_price;
    fetch_gas_price = network_gas_price;
    fetch_balance = network_balance;
    fetch_nonce = network_nonce;
    fetch_transaction_receipt = network_transaction_receipt;
    submit = network_send_transaction;
    await_transaction = network_wait_for_transaction;
    fetch_gas_estimate = network_estimate_gas;
  }
