-- ===== src/Configuration.antt =====
-- config/index.ts: the validation of the configuration. Its parts that config/interface/IConfig.ts
-- requires are taken to be there, but an entry for a chain, an entry of the prices of gas or of tokens,
-- the messages and the index may be missing. A number is a parameter with its truth.
pub mod Complete
use relayer_node.Base.{
  ℕ, String, Bool, true, false, not, Option, none, some, List, [], ◌∷◌, str_eq, if◌then◌else◌,
}
use relayer_node.Js.Text.{◌&◌, to_string}
use relayer_node.Js.Dict.{Dict, lookup}
use relayer_node.Exec.{Exec, ◌>>=◌, ◌>>◌, pure, throw, gets, type_error, or_throw}
use relayer_node.Types.{TransactionType}
use relayer_node.RelayerManager.State.{RelayerManagerOptions}
use relayer_node.Consumers.{EntryPoint}

abbrev pub at {ℓ} : {V : Type ℓ} → Dict V → ℕ → Option V
at d chain_id = lookup (to_string chain_id) d

abbrev pub is_present {ℓ} : {A : Type ℓ} → Option A → Bool
is_present none = false
is_present (some a) = true

abbrev pub has_text : Option String → Bool
has_text none = false
has_text (some text) = not (str_eq text "")

abbrev pub has_items {ℓ} : {A : Type ℓ} → List A → Bool
has_items [] = false
has_items (x ∷ xs) = true

-- if (!test) throw new Error(message)
unfoldable pub require {ℓ} : {S : Type ℓ} → Bool → String → Exec S (Unit {0})
require test message = if test then pure tt else throw (type_error message)

-- if (!items.length) throw new Error(message)
unfoldable pub require_items {ℓ κ} :
    {S : Type ℓ} {A : Type κ} → Option (List A) → String → Exec S (Unit {0})
require_items none message =
    throw (type_error "Cannot read properties of undefined (reading 'length')")
require_items (some items) message = require (has_items items) message

module _ (Number : Type 0) (is_falsy : Number → Bool) where
  abbrev pub has_number : Option Number → Bool
  has_number none = false
  has_number (some n) = not (is_falsy n)

  pub record ChainsConfig : Type 0 where
    pub currency : Dict String
    pub provider : Dict String
    pub decimal : Dict Number
    pub retry_transaction_interval : Dict Number

  pub record TransactionErrors : Type 0 where
    pub network_response_messages : Option (Dict String)
    pub networks_nonce_error : Dict String
    pub networks_insufficient_funds_error : Dict String

  pub record GasPriceConfig : Type 0 where
    pub update_frequency_in_seconds : Option Number
    pub max_gas_price : Option Number
    pub min_gas_price : Option Number
    pub base_fee_multiplier : Option Number

  pub record FeeOptionTables : Type 0 where
    pub supported_fee_tokens : Dict (List String)
    pub similar_tokens : Dict (List String)
    pub offset : Dict (Dict Number)
    pub logo_url : Dict (Dict String)
    pub token_contract_address : Dict (Dict String)
    pub decimals : Dict (Dict Number)
    pub fee_token_transfer_gas : Dict (Dict Number)
    pub refund_receiver : Dict String

  pub record TokenPriceConfig : Type 0 where
    pub coin_market_cap_api : Option String
    pub network_symbols : Option (Dict (List ℕ))
    pub price_update_frequency_in_seconds : Option Number
    pub symbol_map_by_chain_id : Dict (Dict String)

  pub record ConfigType : Type 0 where
    pub supported_networks : List ℕ
    pub supported_transaction_type : Dict (List TransactionType)
    pub chains : ChainsConfig
    pub errors : TransactionErrors
    pub entry_point_data : Dict (List EntryPoint)
    pub node_path_index : Option Number
    pub relayer_managers : List RelayerManagerOptions
    pub gas_price : Dict GasPriceConfig
    pub fee_option : FeeOptionTables
    pub token_price : TokenPriceConfig

  module _ (c : ConfigType) (chain_id : ℕ) where
    abbrev for_chain : String → String
    for_chain text = text & " for chain id " & to_string chain_id

    unfoldable pub validate_chains_config : Exec ConfigType (Unit {0})
    validate_chains_config = do
      require_items (at c.supported_transaction_type chain_id)
          (for_chain "No supported transaction type")
      require (has_text (at c.chains.currency chain_id)) (for_chain "Signer")
      require (has_text (at c.chains.provider chain_id)) (for_chain "Provider required")
      require (has_number (at c.chains.decimal chain_id)) (for_chain "Decimals required")
      require (has_number (at c.chains.retry_transaction_interval chain_id))
          (for_chain "Retry transaction interval required")

    unfoldable pub validate_transaction_config : Exec ConfigType (Unit {0})
    validate_transaction_config = do
      require (is_present c.errors.network_response_messages)
          "Network response messages are required"
      require (has_text (at c.errors.networks_nonce_error chain_id))
          (for_chain "Network nonce error required")
      require (has_text (at c.errors.networks_insufficient_funds_error chain_id))
          (for_chain "Network insufficient funds error required")
      require_items (at c.entry_point_data chain_id) (for_chain "Entry point data address required")
      require (is_present c.node_path_index) "Relayer node path index required"
      require (has_items c.relayer_managers) (for_chain "Relayer manager required")

    unfoldable pub validate_gas_price : GasPriceConfig → Exec ConfigType (Unit {0})
    validate_gas_price g = do
      require (has_number g.update_frequency_in_seconds)
          (for_chain "Gas price update frequency required")
      require (has_number g.update_frequency_in_seconds)
          (for_chain "Gas price update frequency required")
      require (has_number g.max_gas_price) (for_chain "Max gas price required")
      require (has_number g.min_gas_price) (for_chain "Min gas price required")
      require (has_number g.base_fee_multiplier)
          (for_chain "Gas price base fee multiplier required")

    unfoldable pub validate_fee_option : Exec ConfigType (Unit {0})
    validate_fee_option = do
      require_items (at c.fee_option.supported_fee_tokens chain_id)
          (for_chain "Supported fee tokens required")
      require_items (at c.fee_option.similar_tokens chain_id) (for_chain "Similar tokens required")
      require (is_present (at c.fee_option.offset chain_id)) (for_chain "Offset required")
      require (is_present (at c.fee_option.logo_url chain_id)) (for_chain "Logo url required")
      require (is_present (at c.fee_option.token_contract_address chain_id))
          (for_chain "Token contract address required")
      require (is_present (at c.fee_option.decimals chain_id)) (for_chain "Decimals required")
      require (is_present (at c.fee_option.fee_token_transfer_gas chain_id))
          (for_chain "Decimals required")
      require (has_text (at c.fee_option.refund_receiver chain_id))
          (for_chain "Refund receiver required")

    unfoldable pub validate_token_price : Exec ConfigType (Unit {0})
    validate_token_price = do
      require (has_text c.token_price.coin_market_cap_api) "Coin market cap API required"
      require (is_present c.token_price.network_symbols) "Network symbols required"
      require (has_number c.token_price.price_update_frequency_in_seconds)
          "Token price update frequency required"
      require (is_present (at c.token_price.symbol_map_by_chain_id chain_id))
          (for_chain "Symbol map required")

    unfoldable pub validate_chain : Exec ConfigType (Unit {0})
    validate_chain = do
      validate_chains_config
      validate_transaction_config
      g ← or_throw (at c.gas_price chain_id) (for_chain "Gas price configuration required")
      validate_gas_price g
      validate_fee_option
      validate_token_price

  unfoldable pub validate_networks : ConfigType → List ℕ → Exec ConfigType (Unit {0})
  validate_networks c [] = pure tt
  validate_networks c (chain_id ∷ chain_ids) = do
    validate_chain c chain_id
    validate_networks c chain_ids

  unfoldable pub validate : Exec ConfigType Bool
  validate = do c ← gets (λ c. c); validate_networks c c.supported_networks; pure true
