-- ===== src/Tests/Configured.antt =====
-- A configuration of one chain, and one that lacks the receiver of refunds.
use relayer_node.Base.{ℕ, ◌≡◌, Bool, true, ◌==◌, some, [], ◌∷◌, ◌⊎◌, All, refl}
use relayer_node.Js.Text.{to_string}
use relayer_node.Js.Dict.{Dict, lookup}
use relayer_node.Exec.{returned, thrown, type_error, Throws, ◌>>=◌, or_throw}
use relayer_node.Types.{scw}
use relayer_node.Configuration.{
  ConfigType, FeeOptionTables, validate, validate_networks, validate_chain, validate_chains_config,
  validate_transaction_config, validate_gas_price, validate_fee_option, validate_token_price,
  require, require_items,
}
use relayer_node.Configuration.Complete.{IsComplete, validate-decides}
use relayer_node.Tests.Instances.{test_options}
use relayer_node.Tests.Consuming.{entry_point}

abbrev is_zero : ℕ → Bool
is_zero n = n == 0

abbrev on_137 {ℓ} : {V : Type ℓ} → V → Dict V
on_137 v = ("137", v) ∷ []

abbrev fee_option : FeeOptionTables ℕ is_zero
fee_option = record {
  supported_fee_tokens = on_137 ("USDC" ∷ []);
  similar_tokens = on_137 ("USDC" ∷ []);
  offset = on_137 [];
  logo_url = on_137 [];
  token_contract_address = on_137 [];
  decimals = on_137 [];
  fee_token_transfer_gas = on_137 [];
  refund_receiver = on_137 "0x0a";
}

abbrev configured : ConfigType ℕ is_zero
configured = record {
  supported_networks = 137 ∷ [];
  supported_transaction_type = on_137 (scw ∷ []);
  chains = record {
    currency = on_137 "MATIC";
    provider = on_137 "rpc";
    decimal = on_137 18;
    retry_transaction_interval = on_137 30;
  };
  errors = record {
    network_response_messages = some [];
    networks_nonce_error = on_137 "nonce too low";
    networks_insufficient_funds_error = on_137 "insufficient funds";
  };
  entry_point_data = on_137 (entry_point ∷ []);
  node_path_index = some 0;
  relayer_managers = test_options ∷ [];
  gas_price = on_137 (record {
    update_frequency_in_seconds = some 60;
    max_gas_price = some 500;
    min_gas_price = some 30;
    base_fee_multiplier = some 1;
  });
  fee_option = fee_option;
  token_price = record {
    coin_market_cap_api = some "key";
    network_symbols = some [];
    price_update_frequency_in_seconds = some 60;
    symbol_map_by_chain_id = on_137 [];
  };
}

-- The same without the receiver of refunds.
abbrev without_receiver : ConfigType ℕ is_zero
without_receiver = record configured { fee_option = record fee_option { refund_receiver = [] } }

is_valid : validate ℕ is_zero configured ≡ (returned true, configured)
unfolding validate validate_networks validate_chain validate_chains_config
    validate_transaction_config validate_gas_price validate_fee_option validate_token_price require
    require_items or_throw ◌>>=◌ lookup to_string
is_valid = refl

is_without_receiver :
    validate ℕ is_zero without_receiver
    ≡ (thrown (type_error "Refund receiver required for chain id 137"), without_receiver)
unfolding validate validate_networks validate_chain validate_chains_config
    validate_transaction_config validate_gas_price validate_fee_option validate_token_price require
    require_items or_throw ◌>>=◌ lookup to_string
is_without_receiver = refl

validate-decides_example :
    ((validate ℕ is_zero without_receiver ≡ (returned true, without_receiver))
      × All (IsComplete ℕ is_zero without_receiver) (137 ∷ []))
    ⊎ (Throws (validate ℕ is_zero) without_receiver
        × (¬ All (IsComplete ℕ is_zero without_receiver) (137 ∷ [])))
validate-decides_example = validate-decides ℕ is_zero without_receiver
