-- ===== src/Tests/Fees.antt =====
-- The fee options of a chain with a pair of fees.
use relayer_node.Base.{
  ℕ, String, ◌≡◌, refl, ap, subst, Bool, true, false, arith, eq_iff, str_eq, inl, inr, Bool-cases,
  if◌then◌else◌, Option, none, some, List, [], ◌∷◌,
}
use relayer_node.Js.Dict.{lookup}
use relayer_node.Js.Text.{to_string}
use relayer_node.Exec.{JsError, returned, ◌>>=◌}
use relayer_node.Types.{eip1559, GasPriceType}
use relayer_node.Backend.{Backend, State}
use relayer_node.GasPrice.{
  get_gas_price, get_max_fee_per_gas_key, get_max_priority_fee_gas_key, get_pair, includes_chain,
  get_max_fee_gas_price, get_max_priority_fee_gas_price,
}
use relayer_node.Status.{get_token_price_key}
use relayer_node.FeeOption.{Numbers, FeeOptionConfig, failed, includes_token}
use relayer_node.FeeOption.Prices.{fee_options_api}
use relayer_node.FeeOption.Pairs.{fee_options_api-of_pair}
use relayer_node.Server.{JoiError, refusal, unspecified}
use relayer_node.Server.Schemas.{Schema, with_error, required, object, Keys, end, key}
use relayer_node.Server.Routes.{
  Joi, JoiLaws, IsGuarded, lists, stopped, get_fee_options_route, get_status_route,
  post_resubmit_route, routes-of_missing_chain,
}
use relayer_node.Tests.Chain.{test_backend, test_state}
use relayer_node.Tests.Api.{answers, test_databases}

-- Whole numbers; `none` is NaN.
abbrev num : Numbers
num = record {
  Number = Option ℕ;
  Big = ℕ;
  nan = none;
  zero = some 0;
  one = some 1;
  is_falsy = λ n. false;
  number_of_text = λ text. some 7;
  ten_to_the = λ n. some 1;
  big_of_number = λ n. n;
  big_of_text = λ text. some 7;
  mul = λ x y. x;
  div = λ x y. some x;
  big_to_string = to_string;
  big_to_fixed = to_string;
}

abbrev config : FeeOptionConfig num
config = record {
  chain_decimal = some 18;
  supported_fee_tokens = some ("MATIC" ∷ "USDC" ∷ []);
  similar_tokens = some ("MATIC" ∷ []);
  decimals = some [];
  offset = some [];
  native_chain_ids = [];
  token_contract_address = some [];
  logo_url = some [];
  fee_token_transfer_gas = some [];
  refund_receiver = none;
  commission = none;
}

abbrev b : Backend
b = record (test_backend answers) { eip1559_supported_networks = 137 ∷ [] }

abbrev t : State (test_backend answers)
t = test_state answers []

abbrev s : State b
s = record {
  cache = ("MaxFeeGas_137_default", "200") ∷ ("MaxPriorityFeeGas_137_default", "100") ∷ [];
  network = t.network;
  transaction_queue = t.transaction_queue;
  retry_transaction_queue = t.retry_transaction_queue;
  database = t.database;
  slack = t.slack;
  now = t.now;
  waiting_for = t.waiting_for;
}

is_priced : get_gas_price b GasPriceType.default s ≡ (returned (eip1559 "100" "200"), s)
unfolding get_gas_price includes_chain get_pair get_max_fee_gas_price get_max_priority_fee_gas_price
    get_max_fee_per_gas_key get_max_priority_fee_gas_key lookup to_string ◌>>=◌
is_priced = refl

has_no_table : (b.cache.get get_token_price_key s.cache).0 ≡ returned ""
unfolding lookup
has_no_table = refl

in_list : Option (List String) → Bool
in_list none = false
in_list (some tokens) = includes_token "USDC" tokens

usdc_is_other :
    (similar : List String)
    → config.similar_tokens ≡ some similar
    → includes_token "USDC" similar ≡ false
unfolding includes_token in_list
usdc_is_other similar h = subst (λ o. in_list o ≡ false) h refl

fee_options_api-of_pair_example :
    (e : JsError) × ((fee_options_api b num (λ text. none) config "137" s).0
      ≡ returned (record { code = 400; chain_id = none; answer = failed e }))
fee_options_api-of_pair_example =
    fee_options_api-of_pair b num (λ text. none) config refl "137" "" "USDC" "100" "200"
      ("MATIC" ∷ []) [] s s (refl, usdc_is_other) refl is_priced has_no_table

-- Joi, for objects whose keys all have errors of their own: a value is the set of its keys.
abbrev first_missing : Keys → (String → Bool) → Option JoiError
first_missing end value = none
first_missing (key name (with_error message schema) keys) value =
    if value name
    then first_missing keys value
    else some (record { details = none; message = message })
first_missing (key name schema keys) value = first_missing keys value

abbrev validate_keys : Schema → (String → Bool) → Option JoiError
validate_keys (object keys) value = first_missing keys value
validate_keys schema value = none

abbrev test_joi : Joi
test_joi = record {
  Value = String → Bool;
  has = λ value name. value name;
  validate = validate_keys;
}

first_missing-IsBare :
    (keys : Keys) (name : String) (value : String → Bool)
    → IsGuarded keys
    → lists name keys ≡ true
    → value name ≡ false
    → (error : JoiError) × (first_missing keys value ≡ some error) × (error.details ≡ none)
first_missing-IsBare end name value guarded listed missing = absurd (cc)
first_missing-IsBare (key other (with_error message (required schema)) keys) name value guarded
      listed missing =
    elim (Bool-cases (value other)) [
      | inl there ↦ rw there (
          first_missing-IsBare keys name value guarded (ground (arith, eq_iff other name, ap value))
            missing)
      | inr absent ↦ rw absent (_, refl, refl)
    ]
first_missing-IsBare (key other _ keys) name value guarded listed missing = absurd guarded

test_joi-JoiLaws : JoiLaws test_joi
test_joi-JoiLaws = record { validate-missing = first_missing-IsBare }

routes-of_missing_chain_example :
    let value = λ (name : String). str_eq name "transactionId" in
    let answer = refusal 400 unspecified in
    (get_fee_options_route test_joi b num (λ text. none) config value "137" s
      ≡ (returned (stopped answer), s))
    × (get_status_route test_joi b test_databases value
          (record { chain_id = "137"; transaction_id = "0x01" })
          s
        ≡ (returned (stopped answer), s))
    × (post_resubmit_route test_joi b [] to_string value
          (record { transaction_id = "0x01"; gas_price = 5 })
          s
        ≡ (returned (stopped answer), s))
routes-of_missing_chain_example =
    routes-of_missing_chain test_joi test_joi-JoiLaws b test_databases num (λ text. none) config []
      to_string (λ name. str_eq name "transactionId") "137"
      (record { chain_id = "137"; transaction_id = "0x01" })
      (record { transaction_id = "0x01"; gas_price = 5 }) s refl
