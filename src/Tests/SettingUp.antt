-- ===== src/Tests/SettingUp.antt =====
-- A chain that is set up with one manager, and a manager that is given another's relayer.
use relayer_node.Base.{◌≡◌, refl, true, false, none, some, [], ◌∷◌, pos}
use relayer_node.Js.Dict.{lookup, insert}
use relayer_node.Js.Text.{to_string, to_lower_case}
use relayer_node.Exec.{returned, ◌>>=◌, or_throw, try_catch, detach}
use relayer_node.Types.{legacy, aa, scw, funding}
use relayer_node.RelayerQueue.{RelayerMetaData, push, pop, find, sort_by_balance}
use relayer_node.Js.Sort.{sort, sort_onto, insert_by}
use relayer_node.RelayerManager.State.{
  Services, RelayerManager, RelayerManagerOptions, new_relayer_manager, acquire_create,
  release_create, acquire_fund, release_fund, get_relayers_count,
}
use relayer_node.RelayerManager.Create.{
  node_path, account_at, derive_relayers, enqueue_relayer, enqueue_relayers, enqueue_if,
  create_relayers,
}
use relayer_node.RelayerManager.Fund.{has_balance_below_threshold, fund_relayers, fund_if_below}
use relayer_node.Queues.{
  connect_queue, consume_queue, set_up_consumer, exchange_name, exchange_type, queue_name,
  routing_key,
}
use relayer_node.ServiceManager.{ChainConfig, Setup, gas_price_manager_setup}
use relayer_node.ServiceManager.SetUp.{
  before_setup, on_manager, set_up_manager, set_up_managers, set_up_type, set_up_types,
  set_up_chain,
}
use relayer_node.ServiceManager.Routes.{lists, set_up_chain-routes}
use relayer_node.ServiceManager.Shared.{active_relayer_of, active_relayer_of-foreign}
use relayer_node.Tests.Instances.{test_services, test_options}
use relayer_node.Tests.Watching.{test_amqp}

abbrev svc : Services
svc = test_services (legacy "1")

abbrev main_manager : RelayerManagerOptions
main_manager = record test_options { name = "RM1"; funding_balance_threshold = 1 }

abbrev config : ChainConfig
config = record {
  chain_id = 137;
  provider = some "https://rpc";
  relayer_managers = main_manager ∷ [];
  supported_transaction_type = funding ∷ scw ∷ [];
  entry_point_data = [];
  queue_url = "amqp://queue";
}

abbrev served : ChainConfig
served = record config { supported_transaction_type = scw ∷ aa ∷ [] }

abbrev empty_broker : test_amqp.Broker
empty_broker = (λ exchange key queue. false, λ queue. [])

abbrev begun : Setup svc test_amqp
begun = before_setup svc test_amqp tt empty_broker

is_set_up : (set_up_chain svc test_amqp served begun).0 ≡ returned tt
unfolding set_up_chain set_up_types set_up_type set_up_managers set_up_manager on_manager
    gas_price_manager_setup create_relayers acquire_create release_create get_relayers_count
    derive_relayers account_at node_path enqueue_relayer enqueue_relayers enqueue_if lookup insert
    push sort_by_balance sort sort_onto insert_by find fund_relayers acquire_fund release_fund
    fund_if_below has_balance_below_threshold to_lower_case to_string connect_queue consume_queue
    set_up_consumer exchange_name exchange_type queue_name routing_key or_throw detach try_catch
    ◌>>=◌
is_set_up = refl

set_up_chain-routes_example :
    (set_up_chain svc test_amqp served begun).1.route_transaction_to_relayer aa ≡ true
unfolding lists
set_up_chain-routes_example = set_up_chain-routes svc test_amqp served tt empty_broker aa is_set_up

-- A relayer of another manager is first in the queue.
abbrev other_relayer : RelayerMetaData
other_relayer = record { address = "0x0c"; pending_count = pos 0; nonce = 0; balance = 5 }

abbrev main : RelayerManager
main = new_relayer_manager main_manager (record { items = [] })

abbrev shared : Setup svc test_amqp
shared = record begun {
  relayer_queue = record { items = other_relayer ∷ [] };
  relayer_managers = ("RM1", main) ∷ [];
}

active_relayer_of-foreign_example :
    let t = active_relayer_of svc test_amqp "RM1" shared in
    (t.0 ≡ returned none)
    × (t.1.relayer_queue ≡ record { items = [] })
    × ((after : RelayerManager) × (lookup "RM1" t.1.relayer_managers ≡ some after)
        × ((held : RelayerMetaData) × (lookup "0x0c" after.transaction_processing_relayer_map
              ≡ some held)))
unfolding lookup pop
active_relayer_of-foreign_example =
    active_relayer_of-foreign svc test_amqp main other_relayer (record { items = [] }) shared refl
      refl refl
