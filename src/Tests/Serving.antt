-- ===== src/Tests/Serving.antt =====
-- A node that serves one chain: simulations that pass, and requests that are relayed or refused.
use relayer_node.Base.{◌≡◌, ◌≢◌, refl, true, false, some, [], str_eq, inl, inr, Bool-cases}
use relayer_node.Js.Dict.{lookup}
use relayer_node.Exec.{returned, waiting, ◌>>=◌, or_throw, try_catch}
use relayer_node.Types.{GasPriceType, TransactionMethodType}
use relayer_node.Cache.{or_empty}
use relayer_node.Network.{network_gas_price, use_provider}
use relayer_node.Backend.{State}
use relayer_node.GasPrice.{
  includes_chain, get_gas_price_key, get_gas_price, get_legacy, get_gas_price_for_simulation,
}
use relayer_node.Simulation.{error_message, SimulationResponse, check_if_relayer_is_paid_fully}
use relayer_node.Simulation.Simulate.{post_simulation, simulate_scw}
use relayer_node.Simulation.Outcomes.{simulate_scw-follows_status}
use relayer_node.Server.{simulation, refusal, ApiError}
use relayer_node.Server.Validation.{validate_method}
use relayer_node.Server.Simulated.{fails, simulate_scw_transaction, simulate_method}
use relayer_node.Server.Relay.{post_relay}
use relayer_node.Server.Refusals.{ApiKeeps, post_relay-of_failure}
use relayer_node.Tests.Chain.{test_backend, test_state}
use relayer_node.Tests.Api.{answers, test_simulators, test_api, request_of, at_start, simulated}

-- The price comes from the cache, or else from the node.
price_ends :
    (s : State (test_backend answers))
    → (get_gas_price (test_backend answers) GasPriceType.default s).0 ≢ waiting
unfolding get_gas_price includes_chain get_legacy get_gas_price_for_simulation network_gas_price
    use_provider try_catch or_throw ◌>>=◌
price_ends s h =
    elim (Bool-cases (
      str_eq
        (or_empty (lookup (get_gas_price_key (test_backend answers) GasPriceType.default) s.cache))
        "")) [ inl e ↦ cc (rw e at h) | inr e ↦ cc (rw e at h) ]

simulate_scw-follows_status_example :
    (r : SimulationResponse) × ((simulate_scw
        (test_backend answers)
        (test_simulators true)
        simulated
        (record { backend = test_state answers []; simulators = tt })).0
      ≡ returned r)
    × (r.is_simulation_successful ≡ true)
unfolding get_gas_price_for_simulation get_gas_price_key lookup network_gas_price use_provider
    try_catch or_throw ◌>>=◌
simulate_scw-follows_status_example =
    simulate_scw-follows_status (test_backend answers) price_ends (test_simulators true) simulated
      (record { backend = test_state answers []; simulators = tt }) refl refl refl

abbrev reverted : ApiError
reverted = simulation (error_message (some "execution reverted"))

simulated_fails :
    (simulate_method
      (test_backend answers)
      (test_api false)
      (some TransactionMethodType.scw)
      (request_of TransactionMethodType.scw)
      (at_start false)).0
    ≡ returned (some (fails 400 reverted))
unfolding simulate_method simulate_scw_transaction simulate_scw post_simulation
    check_if_relayer_is_paid_fully get_gas_price_for_simulation get_gas_price_key lookup
    network_gas_price use_provider try_catch or_throw ◌>>=◌
simulated_fails = refl

post_relay-of_failure_example :
    let request = request_of TransactionMethodType.scw in
    let b = test_backend answers in
    ((post_relay b (test_api false) request (at_start false)).0 ≡ returned (refusal 400 reverted))
    × ApiKeeps b
        (test_api false)
        (at_start false)
        (post_relay b (test_api false) request (at_start false)).1
unfolding validate_method
post_relay-of_failure_example =
    post_relay-of_failure (test_backend answers) (test_api false) (at_start false)
      (request_of TransactionMethodType.scw) 400 reverted refl simulated_fails
