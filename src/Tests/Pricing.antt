-- ===== src/Tests/Pricing.antt =====
-- Prices of Polygon from an oracle of 20, 30 and 60 gwei, within 35 and 45 gwei.
use relayer_node.Base.{ℕ, ◌*◌, ◌≡◌, refl, true, false, none, some, []}
use relayer_node.Js.Text.{to_string}
use relayer_node.Js.Number.{number_of, round_to_double}
use relayer_node.Js.Signed.{Number, number_of_ℕ, times, less}
use relayer_node.Exec.{returned, thrown, type_error, ◌>>=◌, try_catch}
use relayer_node.Types.{GasPriceType}
use relayer_node.GasPrice.Polygon.{
  Prices, Oracle, PolygonState, is_truthy, in_wei, adjusted, raise_to_min, lower_to_max,
  rounded_text, matic_gas_station, fetch_prices, polygon_setup,
}
use relayer_node.GasPrice.Polygon.Bounds.{IsWithin, StoredPrice, polygon_setup-bounds}
use relayer_node.Tests.Chain.{Answers, test_backend, test_state, dict_cache-CacheLaws}

abbrev answers : Answers
answers = record {
  sent = thrown (type_error "not used");
  mined = thrown (type_error "not used");
  receipt = returned none;
}

abbrev gwei : ℕ → Number
gwei n = number_of_ℕ (n * 1000000000)

abbrev station : Prices
station = record { medium = number_of_ℕ 20; fast = number_of_ℕ 30; fastest = number_of_ℕ 60 }

abbrev oracle : Oracle
oracle = record {
  World = Unit;
  call_polygonscan = λ url w. (thrown (type_error "not used"), w);
  call_matic_gas_station = λ url w. (returned station, w);
  polygonscan_url = "https://polygonscan";
  matic_gas_station_url = "https://matic";
  min_gas_price = gwei 35;
  max_gas_price = gwei 45;
  exponent_text = λ n. "1e21";
}

abbrev idle : PolygonState (test_backend answers) Unit
idle = record { backend = test_state answers []; oracle = tt }

fetched : (fetch_prices (test_backend answers) oracle idle).0 ≡ returned (some (in_wei station))
unfolding fetch_prices matic_gas_station try_catch ◌>>=◌
fetched = refl

-- The fast price is raised to the minimum, and the fastest lowered to the maximum.
adjusted_prices :
    (rounded_text to_string (adjusted (test_backend answers) oracle (in_wei station)).fast
      ≡ "35000000000")
    × (rounded_text to_string (adjusted (test_backend answers) oracle (in_wei station)).fastest
        ≡ "45000000000")
unfolding raise_to_min lower_to_max rounded_text less times number_of round_to_double to_string
adjusted_prices = (refl, refl)

limits_are_ordered : less (gwei 45) (gwei 35) ≡ false
unfolding less number_of round_to_double
limits_are_ordered = refl

maximum_is_set : is_truthy (gwei 45) ≡ true
unfolding number_of round_to_double
maximum_is_set = refl

polygon_setup-bounds_example :
    let b = test_backend answers in
    let laws = dict_cache-CacheLaws in
    let t = (polygon_setup b oracle idle).1 in
    ((polygon_setup b oracle idle).0 ≡ returned tt)
    × (q : Prices) × StoredPrice b oracle laws t GasPriceType.default q.fast
    × StoredPrice b oracle laws t GasPriceType.medium q.medium
    × StoredPrice b oracle laws t GasPriceType.fast q.fastest
    × IsWithin (gwei 35) (gwei 45) q.fast
    × (less (gwei 45) q.medium ≡ false)
    × (less (gwei 45) q.fastest ≡ false)
polygon_setup-bounds_example =
    polygon_setup-bounds (test_backend answers) oracle dict_cache-CacheLaws (in_wei station) idle
      fetched refl maximum_is_set limits_are_ordered
