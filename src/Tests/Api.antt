-- ===== src/Tests/Api.antt =====
-- A node that serves one chain, with simulations that pass or fail.
use relayer_node.Base.{ℕ, ◌≡◌, refl, Bool, true, none, some, [], ◌∷◌}
use relayer_node.Js.Dict.{lookup}
use relayer_node.Js.Text.{to_string, parse_int}
use relayer_node.Exec.{returned, thrown, type_error, ◌>>=◌, or_throw, try_catch}
use relayer_node.Types.{TransactionMethodType}
use relayer_node.Network.{network_gas_price, use_provider}
use relayer_node.GasPrice.{get_gas_price_key, get_gas_price_for_simulation}
use relayer_node.Consumers.{UserOperation, TransactionMessage}
use relayer_node.Simulation.{
  ScwSimulationData, CallTrace, TenderlyTransaction, Simulators, check_if_relayer_is_paid_fully,
}
use relayer_node.Simulation.Simulate.{post_simulation, simulate_scw}
use relayer_node.Server.{ScwParams, RelayRequest, Api, ApiState}
use relayer_node.Server.Transactions.{Databases, includes_network}
use relayer_node.Server.Transactions.Pending.{IsOfChain}
use relayer_node.Server.Simulated.{passes, simulate_scw_transaction, simulate_method}
use relayer_node.Tests.Chain.{Answers, test_backend, test_state, list_queue}

abbrev pub answers : Answers
answers = record {
  sent = thrown (type_error "not used");
  mined = thrown (type_error "not used");
  receipt = returned none;
}

abbrev pub call_trace : CallTrace
call_trace = record { logs = some []; gas_used = 30000; intrinsic_gas = 21000 }

-- Tenderly's answer: the transaction succeeds or not.
abbrev pub transaction_of : Bool → TenderlyTransaction
transaction_of status = record {
  status = status;
  error_message = some "execution reverted";
  gas_used = 51000;
  call_trace = some call_trace;
}

abbrev pub test_simulators : Bool → Simulators
test_simulators status = record {
  World = Unit;
  tenderly_user = "user";
  tenderly_project = "project";
  tenderly_access_key = "key";
  post = λ url key body w. (returned (some (transaction_of status)), w);
  simulate_validation = λ contract op w. (returned tt, w);
  encode_handle_ops = λ op receiver. some "0x1fad948c";
  refund_receiver = "0xfee";
  zero_address = "0x0";
}

abbrev pub params : ScwParams
params = record {
  to = "0xwallet";
  call_data = "0xcafe";
  gas_limit = none;
  chain_id = 137;
  value = "0";
  wallet_info = some "0xWALLET";
  refund_info = record { token_gas_price = "0"; gas_token = "0xtoken" };
}

abbrev pub test_op : UserOperation
test_op = record {
  sender = "0xSENDER";
  nonce = "0x1";
  init_code = "0x";
  call_data = "0x";
  call_gas_limit = "0x1";
  verification_gas_limit = "0x1";
  pre_verification_gas = "0x1";
  max_fee_per_gas = "0x1";
  max_priority_fee_per_gas = "0x1";
  paymaster_and_data = "0x";
  signature = "0x";
}

abbrev pub test_api : Bool → Api
test_api status = record {
  simulators = test_simulators status;
  scw_queue = list_queue TransactionMessage;
  aa_queue = record (list_queue TransactionMessage) {
    publish = λ m w. (thrown (type_error "channel closed"), w);
  };
  Ids = ℕ;
  generate_transaction_id = λ call_data n. (returned "0xid", n);
  supports_aa = true;
  supports_scw = true;
  entry_points = [];
  validate = λ schema request. none;
  connection_url = "wss://relayer";
  to_hex = to_string;
}

abbrev pub request_of : TransactionMethodType → RelayRequest
request_of method = record {
  method = some method;
  scw = some params;
  user_op = some test_op;
  entry_point_address = some "0xentry";
  chain_id = some 137;
  meta_data = none;
  gas_limit_from_simulation = none;
}

abbrev pub at_start : (status : Bool) → ApiState (test_backend answers) (test_api status)
at_start status = record {
  backend = test_state answers [];
  simulators = tt;
  scw_queue = [];
  aa_queue = [];
  ids = 0;
}

abbrev pub simulated : ScwSimulationData
simulated = record {
  chain_id = 137;
  call_data = "0xcafe";
  to = "0xwallet";
  refund_info = params.refund_info;
}

-- The requests are relayed with the gas of the simulation, or refused with its message.
pub simulated_passes :
    (simulate_method
      (test_backend answers)
      (test_api true)
      (some TransactionMethodType.scw)
      (request_of TransactionMethodType.scw)
      (at_start true)).0
    ≡ returned (some (passes 51000))
unfolding simulate_method simulate_scw_transaction simulate_scw post_simulation
    check_if_relayer_is_paid_fully get_gas_price_for_simulation get_gas_price_key lookup
    network_gas_price use_provider try_catch or_throw ◌>>=◌
simulated_passes = refl

-- The configuration supports the test chain.
abbrev pub test_databases : Databases
test_databases = record { supported_networks = 137 ∷ []; on_other = λ network_id id. returned [] }

pub test_databases-IsOfChain : IsOfChain (test_backend answers) test_databases "137"
unfolding parse_int includes_network
test_databases-IsOfChain = (refl, refl)
