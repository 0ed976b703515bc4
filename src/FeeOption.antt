-- ===== src/FeeOption.antt =====
-- server/src/services/fee-options/FeeOption.ts and controllers/fee-options: the price of gas in the
-- tokens that a chain takes for fees. Numbers and the package big.js are a parameter.
pub mod Prices
pub mod Pairs
use relayer_node.Base.{
  ℕ, zero, suc, String, Bool, ◌||◌, Option, none, some, List, [], ◌∷◌, str_eq, if◌then◌else◌,
}
use relayer_node.Js.Text.{to_string}
use relayer_node.Js.Dict.{Dict, lookup}
use relayer_node.Exec.{JsError, Exec, ◌>>=◌, pure, try_catch, or_throw}
use relayer_node.Types.{NetworkBasedGasPrice, legacy, eip1559, GasPriceType}
use relayer_node.Backend.{Backend, State, on_cache}
use relayer_node.GasPrice.{get_gas_price}
use relayer_node.Status.{get_token_price_key}

-- Numbers of JavaScript, and those of big.js: `none` throws.
pub record Numbers : Type 1 where
  pub Number : Type 0
  pub Big : Type 0
  pub nan : Number
  pub zero : Number
  pub one : Number
  pub is_falsy : Number → Bool
  pub number_of_text : String → Number
  -- 10 ** decimal
  pub ten_to_the : Option ℕ → Number
  pub big_of_number : Number → Option Big
  pub big_of_text : String → Option Big
  pub mul : Big → Big → Big
  pub div : Big → Big → Option Big
  pub big_to_string : Big → String
  -- toFixed(0)
  pub big_to_fixed : Big → String

-- config.feeOption of the chain, with its decimals from config.chains. A table may be missing.
pub record FeeOptionConfig (num : Numbers) : Type 0 where
  pub chain_decimal : Option ℕ
  pub supported_fee_tokens : Option (List String)
  pub similar_tokens : Option (List String)
  pub decimals : Option (Dict ℕ)
  pub offset : Option (Dict num.Number)
  pub native_chain_ids : Dict ℕ
  pub token_contract_address : Option (Dict String)
  pub logo_url : Option (Dict String)
  pub fee_token_transfer_gas : Option (Dict ℕ)
  pub refund_receiver : Option String
  pub commission : Option num.Number

-- FeeOptionResponseType
pub record FeeOptionEntry (num : Numbers) : Type 0 where
  pub token_gas_price : num.Number
  pub symbol : String
  pub decimal : Option ℕ
  pub offset : num.Number
  pub address : Option String
  pub logo_url : Option String
  pub fee_token_transfer_gas : Option ℕ
  pub refund_receiver : Option String
  pub commission : num.Number

-- What `get` answers: the code 200 with the options, or 500 with the error.
pub data FeeOptions (num : Numbers) : Type 0 where
  options : List (FeeOptionEntry num) → FeeOptions num
  failed : JsError → FeeOptions num

-- The prices where the cache has none.
abbrev pub default_prices : Dict String
default_prices =
    ("1", "1278.43")
    ∷ ("5", "1278.43")
    ∷ ("80001", "0.80")
    ∷ ("97", "289.87")
    ∷ ("420", "1278.43")
    ∷ ("421613", "1278.43")
    ∷ ("43113", "13.17")
    ∷ []

unfoldable pub includes_token : String → List String → Bool
includes_token token [] = Bool.false
includes_token token (other ∷ tokens) = str_eq other token || includes_token token tokens

abbrev pub is_stable : String → Bool
is_stable token = str_eq token "USDC" || str_eq token "USDT" || str_eq token "DAI"

-- decimal || 18
abbrev pub or_18 : Option ℕ → Option ℕ
or_18 none = some 18
or_18 (some zero) = some 18
or_18 (some (suc n)) = some (suc n)

abbrev pub chain_or_none : Option ℕ → Option ℕ
chain_or_none none = none
chain_or_none (some zero) = none
chain_or_none (some (suc n)) = some (suc n)

abbrev pub undefined_property : String
undefined_property = "Cannot read properties of undefined"

abbrev pub invalid_number : String
invalid_number = "[big.js] Invalid number"
