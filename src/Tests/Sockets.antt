-- ===== src/Tests/Sockets.antt =====
-- Runs of the consumer of events.
use relayer_node.Base.{◌≡◌, refl, false, none, some, List, [], ◌∷◌, ◌++◌}
use relayer_node.Js.Dict.{Dict, lookup}
use relayer_node.Exec.{Exec, returned}
use relayer_node.Types.{legacy, SocketEventType, TransactionQueueMessage}
use relayer_node.RelayerManager.State.{RelayerManager, Services}
use relayer_node.RelayerManager.Create.{create_relayers}
use relayer_node.RelayerManager.Operations.{get_active_relayer}
use relayer_node.Consumers.Socket.{SocketMessage, Socket}
use relayer_node.Tests.Instances.{test_services, start}
use relayer_node.Tests.Chain.{list_queue}

abbrev svc : Services
svc = test_services (legacy "1")

-- The manager of a relayer that carries a transaction.
abbrev manager : RelayerManager
manager = (get_active_relayer (create_relayers svc 1 (start (legacy "1"))).1.manager).1

abbrev mined : TransactionQueueMessage
mined = record {
  transaction_id = "0x01";
  event = SocketEventType.on_transaction_mined;
  relayer_manager_name = "manager";
  transaction_hash = some "0x0a";
  receipt = some (record {
    hash = "0x0a";
    from = "M/44'/60'/0'/0/0";
    gas_price = none;
    nonce = 0;
    gas_limit = "0x5208";
    to = "0xto";
    value = "0x0";
    call_data = "0x";
  });
  error = none;
}

abbrev publish : SocketMessage → Exec (List SocketMessage) (Unit {0})
publish m w = (returned tt, w ++ m ∷ [])

abbrev socket_of :
    Dict RelayerManager
    → Socket svc (list_queue TransactionQueueMessage) (List SocketMessage) publish
socket_of managers = record {
  managers = managers;
  create_relayer_mutex = false;
  fund_relayer_mutex = false;
  world = tt;
  client = [];
  queue = [];
}

abbrev s : Socket svc (list_queue TransactionQueueMessage) (List SocketMessage) publish
s = socket_of (("manager", manager) ∷ [])

is_known : lookup "manager" s.managers ≡ some manager
unfolding lookup
is_known = refl
