-- ===== src/Server/Simulated.antt =====
-- server/src/controllers/simulate: a request goes on only if its transaction passes a simulation.
use relayer_node.Base.{
  ℕ, String, Bool, true, Option, none, some, List, [], ◌∷◌, ◌==◌, if◌then◌else◌,
}
use relayer_node.Exec.{Exec, ◌>>=◌, ◌>>◌, pure, throw, try_catch, type_error, or_throw}
use relayer_node.Types.{TransactionMethodType}
use relayer_node.Backend.{Backend}
use relayer_node.Consumers.{UserOperation, EntryPoint, find_entry_point}
use relayer_node.Simulation.{SimulationResponse, SimulationState}
use relayer_node.Simulation.Simulate.{simulate_scw, simulate_aa}
use relayer_node.Server.{
  RelayRequest, ApiError, text, simulation, unspecified, Response, Api, ApiState, refusal,
}

-- The answer of a simulation's handler: with code 200 the gas limit for the request, and otherwise a
-- code and msgFromSimulation.
pub data Verdict : Type 0 where
  passes : (gas_limit : ℕ) → Verdict
  fails : (code : ℕ) → ApiError → Verdict

abbrev undefined_property : String
undefined_property = "Cannot read properties of undefined"

abbrev pub verdict_of : SimulationResponse → Verdict
verdict_of r =
    if r.is_simulation_successful
    then passes r.gas_limit_from_simulation
    else fails 400 (simulation r.msg_from_simulation)

-- The map of a chain's services; another chain has none.
abbrev pub of_chain : Backend → ℕ → Bool → Option (Unit {0})
of_chain b chain_id supported =
    if chain_id == b.chain_id then (if supported then some tt else none) else none

module _ (b : Backend) (api : Api) where
  abbrev pub on_simulation {ℓ} :
      {A : Type ℓ} → Exec (SimulationState b api.simulators.World) A → Exec (ApiState b api) A
  on_simulation m s =
      let (r, t) = m (record { backend = s.backend; simulators = s.simulators }) in
      (r, record s { backend = t.backend; simulators = t.simulators })

  -- simulateSCWTransaction. The exception's text is in `error`, and is not read.
  unfoldable pub simulate_scw_transaction : RelayRequest → Exec (ApiState b api) Verdict
  simulate_scw_transaction request =
      try_catch
        (do
          p ← or_throw request.scw undefined_property
          or_throw (of_chain b p.chain_id api.supports_scw) undefined_property
          r ← on_simulation (
              simulate_scw b api.simulators (record {
                chain_id = p.chain_id;
                call_data = p.call_data;
                to = p.to;
                refund_info = p.refund_info;
              }))
          pure (verdict_of r))
        (λ _. pure (fails 500 unspecified))

  -- The loop over the entry points, which reads the address only where there is one.
  abbrev pub find_in : Option String → List EntryPoint → Exec (ApiState b api) (Option EntryPoint)
  find_in address [] = pure none
  find_in none (e ∷ es) = throw (type_error undefined_property)
  find_in (some address) (e ∷ es) = pure (find_entry_point address (e ∷ es))

  abbrev pub with_entry_point :
      Option EntryPoint → Option UserOperation → Exec (ApiState b api) Verdict
  with_entry_point none user_op = pure (fails 400 (text "Entry point not found in relayer node"))
  with_entry_point (some e) user_op = do
    or_throw (of_chain b b.chain_id api.supports_aa) undefined_property
    r ← on_simulation (simulate_aa b api.simulators e.address user_op)
    pure (verdict_of r)

  -- simulateAATransaction
  unfoldable pub simulate_aa_transaction : RelayRequest → Exec (ApiState b api) Verdict
  simulate_aa_transaction request =
      try_catch
        (do
          chain_id ← or_throw request.chain_id undefined_property
          or_throw (of_chain b chain_id true) undefined_property
          e ← find_in request.entry_point_address api.entry_points
          with_entry_point e request.user_op)
        (λ _. pure (fails 500 unspecified))

  -- `none` is a response that was not received.
  unfoldable pub simulate_method :
      Option TransactionMethodType → RelayRequest → Exec (ApiState b api) (Option Verdict)
  simulate_method (some TransactionMethodType.aa) request = do
    verdict ← simulate_aa_transaction request
    pure (some verdict)
  simulate_method (some TransactionMethodType.scw) request = do
    verdict ← simulate_scw_transaction request
    pure (some verdict)
  simulate_method _ request = pure none

  -- The next handler is called with the gas limit in the request, or an answer is sent.
  abbrev pub after_simulation :
      Option Verdict → (ℕ → Exec (ApiState b api) Response) → Exec (ApiState b api) Response
  after_simulation none next =
      pure (refusal 400 (text "Response not received from simulation service"))
  after_simulation (some (fails code error)) next = pure (refusal code error)
  after_simulation (some (passes gas_limit)) next = next gas_limit
