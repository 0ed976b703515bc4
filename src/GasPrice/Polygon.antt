-- ===== src/GasPrice/Polygon.antt =====
-- common/gas-price/networks/PolygonGasPrice.ts: the gas prices of Polygon come from one of two
-- oracles, within the limits of the configuration.
pub mod Bounds
use relayer_node.Base.{
  ℕ, ◌+◌, ◌-◌, ◌*◌, ◌/◌, ◌^◌, String, Bool, true, false, not, ◌&&◌, Option, none, some, ltb, ◌==◌,
  str_eq, if◌then◌else◌,
}
use relayer_node.Js.Text.{◌&◌, to_string}
use relayer_node.Js.Number.{one, literal_1_1, literal_1_11}
use relayer_node.Js.Signed.{Number, nan, finite, number_of_ℕ, times, less}
use relayer_node.Exec.{JsError, Exec, ◌>>=◌, ◌>>◌, pure, throw, try_catch, type_error, or_throw}
use relayer_node.Types.{GasPriceType, legacy}
use relayer_node.Backend.{Backend, State}
use relayer_node.GasPrice.{set_gas_price}

-- The prices of an oracle, in gwei: a field that is missing gives NaN when it is multiplied.
pub record Prices : Type 0 where
  pub medium : Number
  pub fast : Number
  pub fastest : Number

-- The answer of polygonscan.
pub record ScanAnswer : Type 0 where
  pub status : String
  pub result : Option Prices

-- gasPriceCall of the two oracles, and config.gasPrice of the chain: a limit that is not set is NaN,
-- as undefined compares like it. `exponent_text` is the text of an integer of 10^21 or more.
pub record Oracle : Type 1 where
  pub World : Type 0
  pub call_polygonscan : (url : String) → Exec World ScanAnswer
  pub call_matic_gas_station : (url : String) → Exec World Prices
  pub polygonscan_url : String
  pub matic_gas_station_url : String
  pub min_gas_price : Number
  pub max_gas_price : Number
  pub exponent_text : ℕ → String

pub record PolygonState (b : Backend) (W : Type 0) : Type 0 where
  pub backend : State b
  pub oracle : W

-- A number as a condition.
abbrev pub is_truthy : Number → Bool
is_truthy nan = false
is_truthy (finite negative size) = not (size == 0)

-- x <= y
abbrev pub at_most : Number → Number → Bool
at_most nan y = false
at_most (finite s x) nan = false
at_most (finite s x) (finite t y) = not (less (finite t y) (finite s x))

-- x * 1e9
abbrev pub in_wei : Prices → Prices
in_wei p = record {
  medium = times p.medium (number_of_ℕ 1000000000);
  fast = times p.fast (number_of_ℕ 1000000000);
  fastest = times p.fastest (number_of_ℕ 1000000000);
}

-- The first adjustment: the fast price is at least the minimum, where polygonscan is configured.
abbrev pub raise_fastest : Number → Number → Number
raise_fastest min_gas_price fastest =
    if at_most fastest (times min_gas_price (finite false literal_1_1))
    then times min_gas_price (finite false literal_1_11)
    else fastest

unfoldable pub raise_to_min :
    (polygonscan_url : String) → (min_gas_price : Number) → Prices → Prices
raise_to_min polygonscan_url min_gas_price p =
    if not (str_eq polygonscan_url "") && less p.fast min_gas_price
    then record p { fast = min_gas_price; fastest = raise_fastest min_gas_price p.fastest }
    else p

abbrev pub capped : Number → Number → Number
capped upper_limit price = if less upper_limit price then upper_limit else price

-- The second adjustment: no price is above the maximum, where there is one.
unfoldable pub lower_to_max : (upper_limit : Number) → Prices → Prices
lower_to_max upper_limit p =
    if is_truthy upper_limit
    then record {
      medium = capped upper_limit p.medium;
      fast = capped upper_limit p.fast;
      fastest = capped upper_limit p.fastest;
    }
    else p

-- Math.round(x).toString()
unfoldable pub rounded_text : (exponent_text : ℕ → String) → Number → String
rounded_text exponent_text nan = "NaN"
rounded_text exponent_text (finite false size) =
    let n = (size + one / 2) / one in if ltb n (10 ^ 21) then to_string n else exponent_text n
rounded_text exponent_text (finite true size) =
    let n = (size + one / 2 - 1) / one in
    if n == 0 then "0" else "-" & (if ltb n (10 ^ 21) then to_string n else exponent_text n)

module _ (b : Backend) (o : Oracle) where
  open o use {World}

  abbrev pub on_oracle {ℓ} : {A : Type ℓ} → Exec World A → Exec (PolygonState b World) A
  on_oracle m s = let (r, w) = m s.oracle in (r, record s { oracle = w })

  abbrev pub on_backend {ℓ} : {A : Type ℓ} → Exec (State b) A → Exec (PolygonState b World) A
  on_backend m s = let (r, t) = m s.backend in (r, record s { backend = t })

  abbrev pub scanned : ScanAnswer → Exec (PolygonState b World) Prices
  scanned answer =
      if str_eq answer.status "1"
      then (do
        p ← or_throw answer.result "Cannot read properties of undefined (reading 'SafeGasPrice')"
        pure (in_wei p))
      else throw (type_error "invalid response from polygon scan")

  -- polygonGasStation
  unfoldable pub polygon_gas_station : Exec (PolygonState b World) Prices
  polygon_gas_station =
      if str_eq o.polygonscan_url ""
      then throw (type_error "Polygon scan gas station url not provided.")
      else do answer ← on_oracle (o.call_polygonscan o.polygonscan_url); scanned answer

  -- maticGasStation
  unfoldable pub matic_gas_station : Exec (PolygonState b World) Prices
  matic_gas_station =
      if str_eq o.matic_gas_station_url ""
      then throw (type_error "Matic gas station url not provided.")
      else do p ← on_oracle (o.call_matic_gas_station o.matic_gas_station_url); pure (in_wei p)

  -- The `try` of setup; `none` leaves the response undefined.
  unfoldable pub fetch_prices : Exec (PolygonState b World) (Option Prices)
  fetch_prices =
      try_catch (do p ← try_catch matic_gas_station (λ _. polygon_gas_station); pure (some p))
        (λ _. pure none)

  -- The prices as setup leaves them.
  abbrev pub adjusted : Prices → Prices
  adjusted p = lower_to_max o.max_gas_price (raise_to_min o.polygonscan_url o.min_gas_price p)

  unfoldable pub store_prices : Prices → Exec (PolygonState b World) (Unit {0})
  store_prices p = do
    on_backend (set_gas_price b GasPriceType.default (legacy (rounded_text o.exponent_text p.fast)))
    on_backend
        (set_gas_price b GasPriceType.medium (legacy (rounded_text o.exponent_text p.medium)))
    on_backend (set_gas_price b GasPriceType.fast (legacy (rounded_text o.exponent_text p.fastest)))

  -- MaticGasPrice.setup. The default values of the three prices stand for undefined only, which they
  -- never are: a price that is missing is NaN.
  unfoldable pub polygon_setup : Exec (PolygonState b World) (Unit {0})
  polygon_setup = do
    response ← fetch_prices
    p ← or_throw response "Cannot destructure property 'mediumGasPriceInWei' of undefined"
    store_prices (adjusted p)
