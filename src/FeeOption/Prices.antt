-- ===== src/FeeOption/Prices.antt =====
-- FeeOption.get with convertGasPriceToUSD, and the API of the fee options.
use relayer_node.Base.{ℕ, String, Option, none, some, List, [], ◌∷◌, str_eq, if◌then◌else◌}
use relayer_node.Js.Text.{to_string}
use relayer_node.Js.Dict.{Dict, lookup}
use relayer_node.Exec.{Exec, ◌>>=◌, pure, try_catch, or_throw}
use relayer_node.Types.{NetworkBasedGasPrice, legacy, eip1559, GasPriceType}
use relayer_node.Backend.{Backend, State, on_cache}
use relayer_node.GasPrice.{get_gas_price}
use relayer_node.Status.{get_token_price_key}
use relayer_node.FeeOption.{
  FeeOptionConfig, FeeOptionEntry, FeeOptions, Numbers, chain_or_none, default_prices,
  includes_token, invalid_number, is_stable, or_18, undefined_property, options, failed,
}

module _ (b : Backend) (num : Numbers) (parse : String → Option (Option (Dict String))) where
  open num use {Number, Big}

  abbrev pub number_or : Number → Option Number → Number
  number_or default none = default
  number_or default (some n) = if num.is_falsy n then default else n

  -- new Big(x)
  abbrev pub big : Number → Exec (State b) Big
  big n = or_throw (num.big_of_number n) invalid_number

  abbrev pub big_text : Option String → Exec (State b) Big
  big_text none = or_throw none invalid_number
  big_text (some text) = or_throw (num.big_of_text text) invalid_number

  abbrev pub divide : Big → Big → Exec (State b) Big
  divide x y = or_throw (num.div x y) "[big.js] Division by zero"

  module _ (config : FeeOptionConfig num) where
    -- convertGasPriceToUSD, of the chain
    unfoldable pub convert_gas_price_to_usd :
        Number → Option String → String → Exec (State b) String
    convert_gas_price_to_usd gas_price chain_price token = do
      offsets ← or_throw config.offset undefined_property
      price ← big gas_price
      usd ← big_text chain_price
      unit ← big (num.ten_to_the (or_18 config.chain_decimal))
      quotient ← divide (num.mul price usd) unit
      offset ← big (number_or num.one (lookup token offsets))
      pure (num.big_to_string (num.mul quotient offset))

    -- new Big(x).mul(10 ** decimal).toFixed(0)
    abbrev pub in_token : Big → Option ℕ → Exec (State b) Number
    in_token price decimal = do
      unit ← big (num.ten_to_the decimal)
      pure (num.number_of_text (num.big_to_fixed (num.mul price unit)))

    abbrev pub cross_chain_price :
        Number → Option String → Dict String → String → Option ℕ → Option ℕ → Exec (State b) Number
    cross_chain_price gas_price chain_price prices token decimal none = pure num.nan
    cross_chain_price gas_price chain_price prices token decimal (some native_chain_id) = do
      in_usd ← convert_gas_price_to_usd gas_price chain_price token
      price ← big_text (some in_usd)
      native ← big_text (lookup (to_string native_chain_id) prices)
      quotient ← divide price native
      in_token quotient decimal

    -- The price of gas in a token, by the kind of the token
    unfoldable pub token_price :
        Number → Dict String → List String → String → Option ℕ → Exec (State b) Number
    token_price gas_price prices similar token decimal =
        let chain_price = lookup (to_string b.chain_id) prices in
        if includes_token token similar
        then pure gas_price
        else if is_stable token
        then (do
          in_usd ← convert_gas_price_to_usd gas_price chain_price token
          price ← big_text (some in_usd)
          in_token price decimal)
        else cross_chain_price gas_price chain_price prices token decimal
            (chain_or_none (lookup token config.native_chain_ids))

    -- A round of the loop
    unfoldable pub fee_option : Number → Dict String → String → Exec (State b) (FeeOptionEntry num)
    fee_option gas_price prices token = do
      decimals ← or_throw config.decimals undefined_property
      similar ← or_throw config.similar_tokens undefined_property
      price ← token_price gas_price prices similar token (lookup token decimals)
      offsets ← or_throw config.offset undefined_property
      addresses ← or_throw config.token_contract_address undefined_property
      urls ← or_throw config.logo_url undefined_property
      gas ← or_throw config.fee_token_transfer_gas undefined_property
      pure (record {
        token_gas_price = price;
        symbol = token;
        decimal = lookup token decimals;
        offset = number_or num.one (lookup token offsets);
        address = lookup token addresses;
        logo_url = lookup token urls;
        fee_token_transfer_gas = lookup token gas;
        refund_receiver = config.refund_receiver;
        commission = number_or num.zero config.commission;
      })

    unfoldable pub fee_options :
        Number → Dict String → List String → Exec (State b) (List (FeeOptionEntry num))
    fee_options gas_price prices [] = pure []
    fee_options gas_price prices (token ∷ tokens) = do
      entry ← fee_option gas_price prices token
      rest ← fee_options gas_price prices tokens
      pure (entry ∷ rest)

    -- Number(gasPriceInString), of a text or of an object
    abbrev pub number_of_price : NetworkBasedGasPrice → Number
    number_of_price (legacy price) = num.number_of_text price
    number_of_price (eip1559 priority fee) = num.nan

    abbrev pub parsed_prices : String → Exec (State b) (Dict String)
    parsed_prices text = if str_eq text "" then pure default_prices else (do
      data' ← or_throw (parse text) "Unexpected token in JSON"
      or_throw data' "Cannot read properties of null")

    abbrev pub tokens_of : Option (List String) → List String
    tokens_of none = []
    tokens_of (some tokens) = tokens

    -- FeeOption.get
    unfoldable pub get_fee_options : Exec (State b) (FeeOptions num)
    get_fee_options =
        try_catch
          (do
            price ← get_gas_price b GasPriceType.default
            text ← on_cache (b.cache.get get_token_price_key)
            prices ← parsed_prices text
            entries ←
                fee_options (number_of_price price) prices (tokens_of config.supported_fee_tokens)
            pure (options entries))
          (λ error. pure (failed error))

-- The answer of GET /feeOptions: the code, and for the code 200 the chain as it was asked for.
pub record FeeAnswer (num : Numbers) : Type 0 where
  pub code : ℕ
  pub chain_id : Option String
  pub answer : FeeOptions num

abbrev pub answer_of : {num : Numbers} → String → FeeOptions num → FeeAnswer num
answer_of chain_id (options entries) = record {
  code = 200;
  chain_id = some chain_id;
  answer = options entries;
}
answer_of chain_id (failed error) = record { code = 400; chain_id = none; answer = failed error }

-- feeOptionsApi, of a chain that is served
unfoldable pub fee_options_api :
    (b : Backend) (num : Numbers) (parse : String → Option (Option (Dict String)))
    → FeeOptionConfig num
    → String
    → Exec (State b) (FeeAnswer num)
fee_options_api b num parse config chain_id = do
  answer ← get_fee_options b num parse config
  pure (answer_of chain_id answer)
