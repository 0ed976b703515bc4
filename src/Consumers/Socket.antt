-- ===== src/Consumers/Socket.antt =====
-- relayer/src/services/consumer/SocketConsumer.ts: events of transactions go to the clients, and
-- mined transactions to the manager of their relayer. All managers share the two mutexes.
use relayer_node.Base.{String, ◌≡◌, refl, Bool, Option, none, some, str_eq, if◌then◌else◌}
use relayer_node.Js.Dict.{Dict, lookup, insert}
use relayer_node.Js.Text.{◌&◌}
use relayer_node.Exec.{Exec, returned, ◌>>=◌, ◌>>◌, pure, throw, try_catch, type_error, detach}
use relayer_node.Types.{SocketEventType, TransactionResponse, TransactionQueueMessage}
use relayer_node.RelayerManager.State.{RelayerManager, Services, State}
use relayer_node.RelayerManager.Operations.{post_transaction_mined}
use relayer_node.Backend.{QueueService}

-- What is published to a channel of the socket server.
pub record SocketMessage : Type 0 where
  pub channel : String
  pub transaction_id : String
  pub transaction_hash : Option String
  pub event : SocketEventType
  pub receipt : Option TransactionResponse

-- The managers of the chain by their names, with their mutexes and services; the socket client.
pub record SocketState (W C Q : Type 0) : Type 0 where
  pub managers : Dict RelayerManager
  pub create_relayer_mutex : Bool
  pub fund_relayer_mutex : Bool
  pub world : W
  pub client : C
  pub queue : Q

abbrev hash_of : Option TransactionResponse → Option String
hash_of none = none
hash_of (some receipt) = some receipt.hash

abbrev pub socket_message : TransactionQueueMessage → SocketMessage
socket_message m = record {
  channel = "transaction:" & m.transaction_id;
  transaction_id = m.transaction_id;
  transaction_hash = hash_of m.receipt;
  event = m.event;
  receipt = m.receipt;
}

-- event === onTransactionMined && receipt?.from
abbrev pub mined_from : SocketEventType → Option TransactionResponse → Option String
mined_from SocketEventType.on_transaction_mined (some receipt) =
    if str_eq receipt.from "" then none else some receipt.from
mined_from _ _ = none

-- `publish` is the package cent.js.
module _ (svc : Services) (q : QueueService TransactionQueueMessage) (C : Type 0)
    (publish : SocketMessage → Exec C (Unit {0})) where
  abbrev pub Socket : Type 0
  Socket = SocketState svc.World C q.Channel

  -- The state of one manager, and the state with it written back.
  abbrev pub manager_state : RelayerManager → Socket → State svc.World
  manager_state m s = record {
    manager = m;
    create_relayer_mutex = s.create_relayer_mutex;
    fund_relayer_mutex = s.fund_relayer_mutex;
    world = s.world;
  }

  abbrev pub write_back : String → State svc.World → Socket → Socket
  write_back name t s = record s {
    managers = insert name t.manager s.managers;
    create_relayer_mutex = t.create_relayer_mutex;
    fund_relayer_mutex = t.fund_relayer_mutex;
    world = t.world;
  }

  abbrev pub on_managers : String → String → Option RelayerManager → Exec Socket (Unit {0})
  on_managers name address none s = throw (type_error "Cannot read properties of undefined") s
  on_managers name address (some m) s =
      let (r, t) = post_transaction_mined svc address (manager_state m s) in
      (r, write_back name t s)

  abbrev pub tell_manager : String → Option String → Exec Socket (Unit {0})
  tell_manager name none s = pure tt s
  tell_manager name (some address) s = on_managers name address (lookup name s.managers) s

  abbrev pub on_client : Exec C (Unit {0}) → Exec Socket (Unit {0})
  on_client m s = let (r, c) = m s.client in (r, record s { client = c })

  abbrev pub acknowledge : TransactionQueueMessage → Exec Socket (Unit {0})
  acknowledge m s = let (r, w) = q.ack m s.queue in (r, record s { queue = w })

  -- SocketConsumer.onMessageReceived
  unfoldable pub socket_on_message_received :
      Option TransactionQueueMessage → Exec Socket (Unit {0})
  socket_on_message_received none = throw (type_error "No msg received from queue")
  socket_on_message_received (some m) = do
    detach (acknowledge m)
    try_catch
        (do
          tell_manager m.relayer_manager_name (mined_from m.event m.receipt)
          detach (on_client (publish (socket_message m))))
        (λ _. pure tt)

  -- A message that tells of a mined transaction, for a manager that is there: the manager takes note
  -- of it, and where that returns the clients are told.
  socket_on_message_received-of_mined :
      (m : TransactionQueueMessage) (manager : RelayerManager) (address : String)
      (t : State svc.World) (s : Socket)
      → mined_from m.event m.receipt ≡ some address
      → lookup m.relayer_manager_name s.managers ≡ some manager
      → post_transaction_mined svc address (manager_state manager s) ≡ (returned tt, t)
      → let u = write_back m.relayer_manager_name t s in
        socket_on_message_received (some m) s ≡ (
          returned tt,
          record u {
            queue = (q.ack m s.queue).1;
            client = (publish (socket_message m) s.client).1;
          },
        )
  unfolding socket_on_message_received detach try_catch ◌>>=◌
  socket_on_message_received-of_mined m manager address t s mined known noted =
      rw (mined, known, noted) refl

  -- For a manager that is not there, the message is acknowledged and the clients are never told.
  socket_on_message_received-of_unknown :
      (m : TransactionQueueMessage) (address : String) (s : Socket)
      → mined_from m.event m.receipt ≡ some address
      → lookup m.relayer_manager_name s.managers ≡ none
      → socket_on_message_received (some m) s
        ≡ (returned tt, record s { queue = (q.ack m s.queue).1 })
  unfolding socket_on_message_received detach try_catch ◌>>=◌
  socket_on_message_received-of_unknown m address s mined unknown = rw (mined, unknown) refl
