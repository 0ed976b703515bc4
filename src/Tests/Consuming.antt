-- ===== src/Tests/Consuming.antt =====
-- Runs of the consumers.
use relayer_node.Tests.Taking.{b, cache}
use relayer_node.Base.{pos, ltb_ℤ, ◌≡◌, refl, true, none, some, []}
use relayer_node.Js.Dict.{lookup, insert}
use relayer_node.Js.Text.{to_string, parse_int, to_lower_case}
use relayer_node.Js.Number.{integer_of_text, round_to_double}
use relayer_node.Exec.{returned, ◌>>=◌, try_catch, or_throw}
use relayer_node.Types.{TransactionType, legacy, Account}
use relayer_node.Network.{use_provider, network_send_transaction, network_nonce, network_gas_price}
use relayer_node.TransactionDao.{update_first}
use relayer_node.Backend.{NotifyParams, Backend, State, QueueLaws, get_retry_transaction_count_key}
use relayer_node.NonceManager.{
  get_nonce, get_account_nonce_key, get_used_account_nonce_key, get_and_set_nonce_from_network,
}
use relayer_node.GasPrice.{
  get_gas_price, get_legacy, get_gas_price_for_simulation, get_gas_price_key, includes_chain,
}
use relayer_node.TransactionListener.{notify}
use relayer_node.TransactionService.{
  success, create_transaction, execute_transaction, hexlify_price,
}
use relayer_node.TransactionService.SendTransaction.{send_transaction}
use relayer_node.TransactionService.Send.{counted}
use relayer_node.Tests.Chain.{dict_increment, test_state}
use relayer_node.Tests.Transactions.{test_response, taking, test_data, retries_at}
use relayer_node.RelayerManager.State.{RelayerManager}
use relayer_node.RelayerManager.Operations.{
  get_active_relayer, set_pending_transaction_count_threshold,
}
use relayer_node.Tests.Instances.{
  test_services, start, test_options, test_services-HasDistinctAddresses,
}
use relayer_node.Js.Sort.{sort, sort_onto, insert_by}
use relayer_node.RelayerQueue.{push, pop, sort_by_balance}
use relayer_node.RelayerManager.State.{Services, acquire_create, release_create, get_relayers_count}
use relayer_node.RelayerManager.Create.{
  node_path, account_at, derive_relayers, enqueue_relayer, enqueue_relayers, enqueue_if,
  create_relayers,
}
use relayer_node.RelayerManager.Lifecycle.{Reach, here, next, creates, sets_pending, new_state}
use relayer_node.RelayerManager.Consistency.{present, HasDistinctAddresses}
use relayer_node.RelayerQueue.{RelayerMetaData}
use relayer_node.RelayerQueue.Members.{occurrences}
use relayer_node.RelayerManager.State as Managers
use relayer_node.Backend.{QueueService}
use relayer_node.Backend as Backends
use relayer_node.NonceManager.{increment_nonce}
use relayer_node.TransactionDao.{update_by_transaction_id}
use relayer_node.TransactionListener.{
  publish_to_transaction_queue, publish_to_retry_transaction_queue,
}
use relayer_node.Exec.{detach}
use relayer_node.TransactionService.SendTransaction.{send_new}
use relayer_node.Consumers.{TransactionMessage, Consumer, scw_on_message_received}
use relayer_node.Consumers.Relayers.{reset, scw_on_message_received-gives_back}
use relayer_node.Base.{String}
use relayer_node.Js.Text.{◌&◌}
use relayer_node.Consumers.{EntryPoint}
use relayer_node.Consumers.Allowed.{send_transaction-after_reset}
use relayer_node.Tests.Chain.{list_queue}

abbrev svc : Services
svc = test_services (legacy "1")

abbrev s : State b
s = test_state taking (retries_at "2")

abbrev queue : QueueService TransactionMessage
queue = list_queue TransactionMessage

abbrev message : TransactionMessage
message = record { transaction = test_data; user_op = none }

-- No relayer, and one relayer.
abbrev idle : Consumer svc b queue
idle = record { manager = start (legacy "1"); backend = s; queue = [] }

abbrev ready : Consumer svc b queue
ready = record idle { manager = (create_relayers svc 1 (start (legacy "1"))).1 }

abbrev address : String
address = "m/44'/60'/0'/0/0"

abbrev relayer : Account
relayer = record { public_key = address; private_key = "key" }

abbrev handed : RelayerManager
handed = (get_active_relayer ready.manager.manager).1

-- What is sent for the relayer.
abbrev after_sending : Backends.State b
after_sending =
    (send_transaction b test_data relayer TransactionType.scw handed.name (reset b test_data s)).1

is_sent :
    send_transaction b test_data relayer TransactionType.scw handed.name (reset b test_data s) ≡ (
      returned (
          success 200 "0x01" (record {
            is_transaction_relayed = true;
            transaction_execution_response = some test_response;
          })),
      after_sending,
    )
unfolding send_transaction send_new create_transaction execute_transaction get_nonce
    get_account_nonce_key get_used_account_nonce_key get_and_set_nonce_from_network get_gas_price
    get_legacy get_gas_price_for_simulation get_gas_price_key includes_chain hexlify_price
    network_nonce network_gas_price network_send_transaction use_provider lookup insert parse_int
    to_string integer_of_text round_to_double increment_nonce dict_increment notify
    publish_to_transaction_queue publish_to_retry_transaction_queue detach update_by_transaction_id
    update_first get_retry_transaction_count_key or_throw try_catch ◌>>=◌ create_relayers
    acquire_create release_create get_relayers_count derive_relayers account_at node_path
    enqueue_relayer enqueue_relayers enqueue_if get_active_relayer push sort_by_balance sort
    sort_onto insert_by pop to_lower_case new_state
is_sent = refl

abbrev distinct : (seed : String) → HasDistinctAddresses svc seed
distinct = test_services-HasDistinctAddresses (legacy "1")

ready_is_reached : Reach svc (new_state svc test_options tt) ready.manager
ready_is_reached = next here (creates (start (legacy "1")) 1)

-- A relayer may carry one transaction.
abbrev lenient : Consumer svc b queue
lenient = record ready {
  manager = record ready.manager {
    manager = set_pending_transaction_count_threshold 2 ready.manager.manager;
  };
}

abbrev with_one_pending : RelayerMetaData
with_one_pending = record { address = address; nonce = 0; pending_count = pos 1; balance = 5 }

hands_out_lenient : (get_active_relayer lenient.manager.manager).0 ≡ some relayer
unfolding create_relayers acquire_create release_create get_relayers_count derive_relayers
    account_at node_path enqueue_relayer enqueue_relayers enqueue_if get_active_relayer lookup
    insert push sort_by_balance sort sort_onto insert_by pop to_lower_case to_string try_catch ◌>>=◌
    new_state set_pending_transaction_count_threshold
hands_out_lenient = refl

carries_one :
    lookup address (get_active_relayer lenient.manager.manager).1.transaction_processing_relayer_map
    ≡ some with_one_pending
unfolding create_relayers acquire_create release_create get_relayers_count derive_relayers
    account_at node_path enqueue_relayer enqueue_relayers enqueue_if get_active_relayer lookup
    insert push sort_by_balance sort sort_onto insert_by pop to_lower_case to_string try_catch ◌>>=◌
    new_state set_pending_transaction_count_threshold
carries_one = refl

is_below :
    ltb_ℤ with_one_pending.pending_count
      (get_active_relayer lenient.manager.manager).1.pending_transaction_count_threshold
    ≡ true
unfolding create_relayers acquire_create release_create get_relayers_count derive_relayers
    account_at node_path enqueue_relayer enqueue_relayers enqueue_if get_active_relayer lookup
    insert push sort_by_balance sort sort_onto insert_by pop to_lower_case to_string try_catch ◌>>=◌
    new_state set_pending_transaction_count_threshold
is_below = refl

scw_on_message_received-gives_back_example :
    let r = scw_on_message_received svc b queue (some message) lenient in
    (r.0 ≡ returned tt)
    × (occurrences address r.1.manager.manager.relayer_queue.items ≡ 1)
    × (present (lookup address r.1.manager.manager.transaction_processing_relayer_map) ≡ 0)
unfolding create_relayers acquire_create release_create get_relayers_count derive_relayers
    account_at node_path enqueue_relayer enqueue_relayers enqueue_if get_active_relayer lookup
    insert push sort_by_balance sort sort_onto insert_by pop to_lower_case to_string try_catch ◌>>=◌
    new_state set_pending_transaction_count_threshold
scw_on_message_received-gives_back_example =
    scw_on_message_received-gives_back svc b cache queue distinct test_options tt message relayer
      with_one_pending
      (success 200 "0x01" (record {
        is_transaction_relayed = true;
        transaction_execution_response = some test_response;
      }))
      after_sending lenient (next ready_is_reached (sets_pending ready.manager 2)) hands_out_lenient
      carries_one is_below is_sent

-- A chain whose gas price is no number that hexlify takes.
abbrev broken : Backend
broken = record b { hexlify = λ n. none }

abbrev broken_state : Backends.State broken
broken_state = record {
  cache = retries_at "2";
  network = s.network;
  transaction_queue = [];
  retry_transaction_queue = [];
  database = [];
  slack = [];
  now = 1700000000000;
  waiting_for = [];
}

abbrev ready_broken : Consumer svc broken queue
ready_broken = record {
  manager = (create_relayers svc 1 (start (legacy "1"))).1;
  backend = broken_state;
  queue = [];
}

abbrev after_error : Backends.State broken
after_error =
    (send_transaction broken test_data relayer TransactionType.scw handed.name
      (reset broken test_data broken_state)).1

-- The manager after the error, with another relayer created.
abbrev later : Managers.State Unit
later =
    (create_relayers svc 1
      (scw_on_message_received svc broken queue (some message) ready_broken).1.manager).1

send_transaction-after_reset_example :
    let t = reset b test_data s in
    send_transaction b test_data relayer TransactionType.scw "manager" t
    ≡ send_new b test_data relayer TransactionType.scw "manager" (counted b cache test_data t)
send_transaction-after_reset_example =
    send_transaction-after_reset b cache test_data relayer TransactionType.scw "manager" s

abbrev pub entry_point : EntryPoint
entry_point = record {
  address = "0xAB";
  handle_ops = λ user_op beneficiary. returned ("0xff" & beneficiary);
}
