-- ===== src/GasPrice/Bumping.antt =====
-- getBumpedUpGasPrice of GasPrice: the gas price of a transaction that is sent again.
use mathlib.Core.Option
use relayer_node.Base.{ℕ, ◌+◌, ◌*◌, ◌/◌, String, Bool, true, Option, none, some, ltb, if◌then◌else◌}
use relayer_node.Js.Number.{
  number_of, times_literal, literal_1_1, literal_1_11, shown_integer, integer_of_text,
}
use relayer_node.Exec.{Exec, ◌>>=◌, ◌>>◌, pure, throw, type_error, or_throw}
use relayer_node.Types.{NetworkBasedGasPrice, legacy, eip1559}
use relayer_node.Backend.{Backend, State}
use relayer_node.GasPrice.{includes_chain}

module _ (b : Backend) where
  -- BigNumber.from(price).mul(bumpingPercentage + 100).div(100)
  unfoldable pub bump : String → Option ℕ → Exec (State b) ℕ
  bump price bumping_percentage = do
    n ← or_throw (b.big_number_from price) "invalid BigNumber string"
    percentage ← or_throw bumping_percentage "invalid BigNumber value"
    pure (n * (percentage + 100) / 100)

  -- Number(bumped) < x * Number(past) ? x * Number(past) : other, where NaN makes the test false.
  abbrev pub at_least : ℕ → ℕ → Option ℕ → Option ℕ → Option ℕ
  at_least literal bumped none other = other
  at_least literal bumped (some past) other =
      if ltb (number_of bumped) (times_literal literal past)
      then some (times_literal literal past)
      else other

  abbrev pub number_of_text : String → Option ℕ
  number_of_text price = Option.map number_of (integer_of_text price)

  -- ethers.BigNumber.from(x.toString()).toHexString()
  abbrev pub shown : Option ℕ → Option ℕ
  shown none = none
  shown (some x) = shown_integer x

  unfoldable pub hex_of_number : Option ℕ → Exec (State b) String
  hex_of_number x = do n ← or_throw (shown x) "invalid BigNumber string"; pure (b.to_hex_string n)

  -- The branch of a pair, whose result is overwritten: what it does is throw, or not.
  unfoldable pub bump_pair : String → String → Option ℕ → Exec (State b) NetworkBasedGasPrice
  bump_pair max_priority_fee_per_gas max_fee_per_gas bumping_percentage = do
    bumped_priority ← bump max_priority_fee_per_gas bumping_percentage
    bumped_max_fee ← bump max_fee_per_gas bumping_percentage
    max_fee ← hex_of_number (
        at_least literal_1_11 bumped_priority (integer_of_text max_priority_fee_per_gas)
          (number_of_text max_priority_fee_per_gas))
    max_priority_fee ← hex_of_number (
        at_least literal_1_11 bumped_max_fee (integer_of_text max_fee_per_gas)
          (number_of_text max_fee_per_gas))
    pure (eip1559 max_priority_fee max_fee)

  -- The lines after it, for any price. BigNumber.from throws on an object, and on undefined.
  unfoldable pub bump_text : Option NetworkBasedGasPrice → Option ℕ → Exec (State b) String
  bump_text (some (legacy past_gas_price)) bumping_percentage = do
    bumped_up_price ← bump past_gas_price bumping_percentage
    hex_of_number (
        at_least literal_1_1 bumped_up_price (integer_of_text past_gas_price)
          (some (number_of bumped_up_price)))
  bump_text _ bumping_percentage = throw (type_error "invalid BigNumber value")

  abbrev pub bump_pair_of :
      Bool → Option NetworkBasedGasPrice → Option ℕ → Exec (State b) (Unit {0})
  bump_pair_of true (some (eip1559 max_priority_fee_per_gas max_fee_per_gas)) bumping_percentage =
      do bump_pair max_priority_fee_per_gas max_fee_per_gas bumping_percentage; pure tt
  bump_pair_of _ _ bumping_percentage = pure tt

  -- getBumpedUpGasPrice
  unfoldable pub get_bumped_up_gas_price :
      Option NetworkBasedGasPrice → Option ℕ → Exec (State b) String
  get_bumped_up_gas_price past_gas_price bumping_percentage = do
    bump_pair_of (includes_chain b.eip1559_supported_networks b.chain_id) past_gas_price
        bumping_percentage
    bump_text past_gas_price bumping_percentage
