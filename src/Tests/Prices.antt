-- ===== src/Tests/Prices.antt =====
-- The prices of the coins.
use relayer_node.Base.{ℕ, String, ◌≡◌, refl, Option, none, some, [], ◌∷◌, str_eq, if◌then◌else◌}
use relayer_node.Js.Dict.{Dict, lookup, insert}
use relayer_node.Js.Text.{to_string}
use relayer_node.Exec.{returned}
use relayer_node.TokenPrice.{
  PriceApi, Json, CmcTokenPriceManager, PriceState, add_network, insert_all, add_rates,
  instance_setup, get_token_price, get_token_price_by_token_address,
}
use relayer_node.TokenPrice.Rates.{quoted, names_chain, setup-then_price}
use relayer_node.TokenPrice.Unknown.{ticks, IsZero, get_token_price_by_token_address-of_empty}
use relayer_node.Tests.Chain.{dict_cache, dict_cache-CacheLaws}

abbrev quotes : Dict (Option String)
quotes = ("ETH", some "1278.43") ∷ ("MATIC", some "0.80") ∷ []

abbrev api : PriceApi
api = record { World = ℕ; get = λ url n. (returned (some quotes), n) }

abbrev rates : Dict String
rates = ("5", "1278.43") ∷ ("80001", "0.80") ∷ []

-- One table is all that is printed.
abbrev json : Json
json = record {
  stringify = λ d. "table";
  parse = λ text. if str_eq text "" then none else some (some rates);
}

abbrev manager : CmcTokenPriceManager
manager = record {
  api_key = "key";
  network_symbol_categories = ("ETH", 5 ∷ []) ∷ ("MATIC", 80001 ∷ []) ∷ [];
  symbol_map_by_chain_id = ("5", ("0xdai", "DAI") ∷ []) ∷ [];
}

abbrev fresh : PriceState dict_cache api
fresh = record { cache = []; world = 0 }

rates_lem : add_rates manager.network_symbol_categories quotes [] ≡ some rates
unfolding add_rates add_network insert_all lookup insert to_string
rates_lem = refl

setup-then_price_example :
    (get_token_price dict_cache api json manager "80001"
      (instance_setup dict_cache api json manager fresh).1).0
    ≡ returned (some "0.80")
unfolding quoted names_chain lookup to_string
setup-then_price_example =
    setup-then_price dict_cache dict_cache-CacheLaws api json manager fresh quotes rates "80001"
      refl rates_lem refl

get_token_price_by_token_address-of_empty_example :
    IsZero dict_cache dict_cache-CacheLaws api json fresh (
      get_token_price_by_token_address dict_cache api json manager 5 "0xdai"
        (ticks dict_cache dict_cache-CacheLaws api json 3 fresh))
unfolding lookup
get_token_price_by_token_address-of_empty_example =
    get_token_price_by_token_address-of_empty dict_cache dict_cache-CacheLaws api json manager 3 5
      "0xdai" fresh refl refl
