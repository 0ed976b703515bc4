-- ===== src/GasPrice.antt =====
-- common/gas-price/GasPrice.ts: the gas prices of a chain in the cache, and bumped-up prices.
pub mod Cached
pub mod Bumping
pub mod Raised
pub mod Bump
pub mod Polygon
use mathlib.Core.Option
use relayer_node.Base.{
  ℕ, ◌+◌, ◌*◌, ◌/◌, String, Bool, true, false, ◌||◌, ◌&&◌, Option, none, some, List, [], ◌∷◌, ltb,
  ◌==◌, str_eq, if◌then◌else◌,
}
use relayer_node.Js.Text.{◌&◌, to_string}
use relayer_node.Js.Number.{
  number_of, times_literal, literal_1_1, literal_1_11, shown_integer, integer_of_text,
  round_to_double,
}
use relayer_node.Exec.{
  JsError, Exec, returned, ◌>>=◌, ◌>>◌, pure, throw, try_catch, type_error, or_throw,
}
use relayer_node.Types.{GasPriceType, NetworkBasedGasPrice, legacy, eip1559}
use relayer_node.Backend.{Backend, State, on_cache, on_network}

abbrev gas_type_text : GasPriceType → String
gas_type_text GasPriceType.default = "default"
gas_type_text GasPriceType.medium = "medium"
gas_type_text GasPriceType.fast = "fast"

-- xs.includes(n)
unfoldable pub includes_chain : List ℕ → ℕ → Bool
includes_chain [] n = false
includes_chain (m ∷ ms) n = m == n || includes_chain ms n

module _ (b : Backend) where
  unfoldable pub get_gas_price_key : GasPriceType → String
  get_gas_price_key gas_type = "GasPrice_" & to_string b.chain_id & "_" & gas_type_text gas_type

  unfoldable pub get_max_fee_per_gas_key : GasPriceType → String
  get_max_fee_per_gas_key gas_type =
      "MaxFeeGas_" & to_string b.chain_id & "_" & gas_type_text gas_type

  unfoldable pub get_max_priority_fee_gas_key : GasPriceType → String
  get_max_priority_fee_gas_key gas_type =
      "MaxPriorityFeeGas_" & to_string b.chain_id & "_" & gas_type_text gas_type

  unfoldable pub set_gas_price : GasPriceType → NetworkBasedGasPrice → Exec (State b) (Unit {0})
  set_gas_price gas_type (legacy price) = do
    on_cache (b.cache.set (get_gas_price_key gas_type) price)
    pure tt
  set_gas_price gas_type (eip1559 max_priority_fee_per_gas max_fee_per_gas) = do
    on_cache (b.cache.set (get_max_fee_per_gas_key gas_type) max_fee_per_gas)
    on_cache (b.cache.set (get_max_priority_fee_gas_key gas_type) max_priority_fee_per_gas)
    pure tt

  unfoldable pub get_max_fee_gas_price : GasPriceType → Exec (State b) String
  get_max_fee_gas_price gas_type = on_cache (b.cache.get (get_max_fee_per_gas_key gas_type))

  unfoldable pub get_max_priority_fee_gas_price : GasPriceType → Exec (State b) String
  get_max_priority_fee_gas_price gas_type =
      on_cache (b.cache.get (get_max_priority_fee_gas_key gas_type))

  unfoldable pub set_max_fee_gas_price : GasPriceType → String → Exec (State b) (Unit {0})
  set_max_fee_gas_price gas_type price = do
    on_cache (b.cache.set (get_max_fee_per_gas_key gas_type) price)
    pure tt

  unfoldable pub set_max_priority_fee_gas_price : GasPriceType → String → Exec (State b) (Unit {0})
  set_max_priority_fee_gas_price gas_type price = do
    on_cache (b.cache.set (get_max_priority_fee_gas_key gas_type) price)
    pure tt

  abbrev pub pair_or_network : Bool → String → String → Exec (State b) NetworkBasedGasPrice
  pair_or_network true max_fee_per_gas max_priority_fee_per_gas =
      on_network b.network.fetch_eip1559_gas_price
  pair_or_network false max_fee_per_gas max_priority_fee_per_gas =
      pure (eip1559 max_priority_fee_per_gas max_fee_per_gas)

  abbrev pub text_or_network : Bool → String → Exec (State b) String
  text_or_network true gas_price = on_network b.network.fetch_gas_price
  text_or_network false gas_price = pure gas_price

  -- getGasPriceForSimulation, and the last branch of getGasPrice
  unfoldable pub get_gas_price_for_simulation : GasPriceType → Exec (State b) String
  get_gas_price_for_simulation gas_type = do
    gas_price ← on_cache (b.cache.get (get_gas_price_key gas_type))
    text_or_network (str_eq gas_price "") gas_price

  unfoldable pub get_pair : GasPriceType → Exec (State b) NetworkBasedGasPrice
  get_pair gas_type = do
    max_fee_per_gas ← get_max_fee_gas_price gas_type
    max_priority_fee_per_gas ← get_max_priority_fee_gas_price gas_type
    pair_or_network (str_eq max_fee_per_gas "" || str_eq max_priority_fee_per_gas "")
        max_fee_per_gas max_priority_fee_per_gas

  unfoldable pub get_legacy : GasPriceType → Exec (State b) NetworkBasedGasPrice
  get_legacy gas_type = do price ← get_gas_price_for_simulation gas_type; pure (legacy price)

  unfoldable pub get_gas_price : GasPriceType → Exec (State b) NetworkBasedGasPrice
  get_gas_price gas_type =
      if includes_chain b.eip1559_supported_networks b.chain_id
      then get_pair gas_type
      else get_legacy gas_type

  -- parseInt(gasPriceFromNetwork, 16).toString() of a hexadecimal text, and '' of another.
  abbrev pub decimal_text : Bool → Option ℕ → String
  decimal_text false value = ""
  decimal_text true none = "NaN"
  decimal_text true (some n) = to_string (round_to_double n)

  abbrev pub setup_price : Option String → Exec (State b) String
  setup_price none = do
    price ← on_network b.network.fetch_gas_price
    pure (decimal_text (b.is_hex_string price) (integer_of_text price))
  setup_price (some gas_price) = pure gas_price

  -- setup; `none` stands for a price that is undefined or empty.
  unfoldable pub setup : Option String → Exec (State b) (Unit {0})
  setup given =
      try_catch
        (do gas_price ← setup_price given; set_gas_price GasPriceType.default (legacy gas_price))
        (λ _. pure tt)
