-- ===== src/TokenPrice.antt =====
-- common/token-price/CMCTokenPriceManager.ts: the prices of the chains' coins, kept as one text of
-- the cache. A price is the text that toFixed(2) gives.
pub mod Rates
pub mod Unknown
use relayer_node.Base.{
  ℕ, String, Bool, true, false, Option, none, some, List, [], ◌∷◌, map, str_eq, if◌then◌else◌,
}
use relayer_node.Js.Text.{◌&◌, to_string}
use relayer_node.Js.Join.{join_commas}
use relayer_node.Js.Dict.{Dict, lookup, insert, keys}
use relayer_node.Exec.{Exec, ◌>>=◌, ◌>>◌, pure, try_catch, or_throw}
use relayer_node.Cache.{CacheService}
use relayer_node.Status.{get_token_price_key}

-- The package axios and the price API: the quotes of its answer, `none` where it has no data. A
-- quote without a price in dollars is `none`.
pub record PriceApi : Type 1 where
  pub World : Type 0
  pub get : String → Exec World (Option (Dict (Option String)))

-- JSON.stringify and JSON.parse of the table: `none` throws, and `some none` is null.
pub record Json : Type 0 where
  pub stringify : Dict String → String
  pub parse : String → Option (Option (Dict String))

-- The fields that `setup` finds in its `this`, which setInterval makes a Timeout.
pub record This : Type 0 where
  pub api_key : Option String
  pub network_symbol_categories : Option (Dict (List ℕ))

abbrev timeout : This
timeout = record { api_key = none; network_symbol_categories = none }

pub record CmcTokenPriceManager : Type 0 where
  pub api_key : String
  pub network_symbol_categories : Dict (List ℕ)
  -- symbolMapByChainId, by the chain and then by the token's address
  pub symbol_map_by_chain_id : Dict (Dict String)

-- The address that `setup` of a manager asks.
abbrev pub url_of : CmcTokenPriceManager → String
url_of m = m.api_key & "?symbol=" & join_commas (keys m.network_symbol_categories)

abbrev this_of : CmcTokenPriceManager → This
this_of m = record {
  api_key = some m.api_key;
  network_symbol_categories = some m.network_symbol_categories;
}

-- The ids of a network's chains; `undefined` and an empty list are alike.
abbrev pub ids_of : String → Dict (List ℕ) → List ℕ
ids_of network categories = elim (lookup network categories) [ none ↦ [] | some ids ↦ ids ]

unfoldable pub insert_all : List ℕ → String → Dict String → Dict String
insert_all [] price rates = rates
insert_all (id ∷ ids) price rates = insert_all ids price (insert (to_string id) price rates)

-- A round of the loop over the networks; `none` throws. Without chains the quote is not looked at.
unfoldable pub add_network : List ℕ → Option String → Dict String → Option (Dict String)
add_network [] price rates = some rates
add_network (id ∷ ids) none rates = none
add_network (id ∷ ids) (some price) rates = some (insert_all (id ∷ ids) price rates)

unfoldable pub add_rates : Dict (List ℕ) → Dict (Option String) → Dict String → Option (Dict String)
add_rates categories [] rates = some rates
add_rates categories ((network, price) ∷ quotes) rates =
    elim (add_network (ids_of network categories) price rates) [
      | none ↦ none
      | some rates' ↦ add_rates categories quotes rates'
    ]

abbrev undefined_text : Option String → String
undefined_text none = "undefined"
undefined_text (some text) = text

pub record PriceState (c : CacheService) (api : PriceApi) : Type 0 where
  pub cache : c.Cache
  pub world : api.World

module _ (cache : CacheService) (api : PriceApi) (json : Json) where
  abbrev pub on_cache {ℓ} : {A : Type ℓ} → Exec cache.Cache A → Exec (PriceState cache api) A
  on_cache m s = let (r, w) = m s.cache in (r, record s { cache = w })

  abbrev pub on_api {ℓ} : {A : Type ℓ} → Exec api.World A → Exec (PriceState cache api) A
  on_api m s = let (r, w) = m s.world in (r, record s { world = w })

  abbrev store_rates :
      Dict (List ℕ) → Option (Dict (Option String)) → Exec (PriceState cache api) (Unit {0})
  store_rates categories none = pure tt
  store_rates categories (some quotes) = do
    rates ← or_throw (add_rates categories quotes []) "Cannot read properties of undefined"
    on_cache (cache.set get_token_price_key (json.stringify rates))
    pure tt

  -- setup, with its `this`: an error is logged.
  unfoldable pub setup : This → Exec (PriceState cache api) (Unit {0})
  setup this =
      try_catch
        (do
          categories ←
              or_throw this.network_symbol_categories "Cannot convert undefined or null to object"
          response ←
              on_api
                (api.get (undefined_text this.api_key & "?symbol=" & join_commas (keys categories)))
          store_rates categories response)
        (λ _. pure tt)

  -- What schedule() has called at each interval: the method without its object.
  unfoldable pub scheduled_setup : Exec (PriceState cache api) (Unit {0})
  scheduled_setup = setup timeout

  module _ (m : CmcTokenPriceManager) where
    unfoldable pub instance_setup : Exec (PriceState cache api) (Unit {0})
    instance_setup = setup (this_of m)

    abbrev read_prices : Exec (PriceState cache api) (Option (Dict String))
    read_prices = do
      text ← on_cache (cache.get get_token_price_key)
      or_throw (json.parse text) "Unexpected end of JSON input"

    abbrev prices_or_setup :
        Option (Dict String) → Exec (PriceState cache api) (Option (Dict String))
    prices_or_setup none = do instance_setup; read_prices
    prices_or_setup (some prices) = pure (some prices)

    -- `none` is undefined.
    unfoldable pub get_token_price : String → Exec (PriceState cache api) (Option String)
    get_token_price symbol = do
      found ← read_prices
      data' ← prices_or_setup found
      prices ← or_throw data' "Cannot read properties of null"
      pure (lookup symbol prices)

    abbrev price_of_symbol : Option String → Exec (PriceState cache api) (Option String)
    price_of_symbol none = pure (some "0")
    price_of_symbol (some symbol) =
        if str_eq symbol "" then pure (some "0") else get_token_price symbol

    abbrev price_of_address : ℕ → String → Exec (PriceState cache api) (Option String)
    price_of_address chain_id token_address = do
      symbols ←
          or_throw (lookup (to_string chain_id) m.symbol_map_by_chain_id)
            "Cannot read properties of undefined"
      price_of_symbol (lookup token_address symbols)

    -- The price is 0 until there is another; 0 is shown as a text.
    unfoldable pub get_token_price_by_token_address :
        ℕ → String → Exec (PriceState cache api) (Option String)
    get_token_price_by_token_address chain_id token_address =
        try_catch
          (if str_eq token_address ""
            then pure (some "0")
            else price_of_address chain_id token_address)
          (λ _. pure (some "0"))
