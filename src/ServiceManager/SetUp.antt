-- ===== src/ServiceManager/SetUp.antt =====
-- The turn of a chain in the loop of common/service-manager/index.ts.
use relayer_node.Base.{ℕ, String, Bool, false, List, [], ◌∷◌, ◌++◌}
use relayer_node.Js.Text.{◌&◌, to_string}
use relayer_node.Js.Dict.{lookup, insert}
use relayer_node.Exec.{Exec, ◌>>=◌, ◌>>◌, pure, modify, gets, or_throw, detach}
use relayer_node.Types.{TransactionType, aa, scw}
use relayer_node.RelayerManager.State as Managers
use relayer_node.RelayerManager.State.{
  RelayerManager, RelayerManagerOptions, new_relayer_manager, Services,
}
use relayer_node.RelayerManager.Create.{create_relayers}
use relayer_node.RelayerManager.Fund.{fund_relayers}
use relayer_node.Server.Transactions.{relayer_manager_name_of}
use relayer_node.Queues.{QueueKind, Amqp, QueueState, connect_queue, consume_queue}
use relayer_node.ServiceManager.{ChainConfig, Setup, gas_price_manager_setup, given, with_route}

module _ (svc : Services) (amqp : Amqp) where
  -- A method of a manager, whose queue is the one that all share.
  unfoldable pub on_manager {ℓ} :
      {A : Type ℓ} → RelayerManager → Exec (Managers.State svc.World) A → Exec (Setup svc amqp) A
  on_manager m method s =
      let (r, t) = method (record {
        manager = record m { relayer_queue = s.relayer_queue };
        create_relayer_mutex = s.create_relayer_mutex;
        fund_relayer_mutex = s.fund_relayer_mutex;
        world = s.world;
      }) in
      (
        r,
        record s {
          relayer_queue = t.manager.relayer_queue;
          relayer_managers = insert m.name t.manager s.relayer_managers;
          create_relayer_mutex = t.create_relayer_mutex;
          fund_relayer_mutex = t.fund_relayer_mutex;
          world = t.world;
        },
      )

  -- EVMRelayerManagerMap[name][chainId]
  abbrev pub the_manager : String → Exec (Setup svc amqp) RelayerManager
  the_manager name = do
    managers ← gets (λ s. s.relayer_managers)
    or_throw (lookup name managers) ("Relayer manager not found for " & name)

  -- A round of the loop over config.relayerManagers
  unfoldable pub set_up_manager : RelayerManagerOptions → Exec (Setup svc amqp) (Unit {0})
  set_up_manager options = do
    queue ← gets (λ s. s.relayer_queue)
    let m = new_relayer_manager options queue
    modify (λ s. record s { relayer_managers = insert options.name m s.relayer_managers })
    addresses ← on_manager m (create_relayers svc options.min_relayer_count)
    created ← the_manager options.name
    on_manager created (fund_relayers svc addresses)

  unfoldable pub set_up_managers : List RelayerManagerOptions → Exec (Setup svc amqp) (Unit {0})
  set_up_managers [] = pure tt
  set_up_managers (options ∷ rest) = do set_up_manager options; set_up_managers rest

  -- A method of one of the chain's four queues, by the field that tells whether it has a channel.
  abbrev on_queue {ℓ} :
      {A : Type ℓ}
      → (Setup svc amqp → Bool)
      → (Bool → Setup svc amqp → Setup svc amqp)
      → Exec (QueueState amqp.Broker) A
      → Exec (Setup svc amqp) A
  on_queue get put method s =
      let (r, t) = method (record { has_channel = get s; broker = s.broker }) in
      (r, put t.has_channel (record s { broker = t.broker }))

  abbrev pub on_transaction_queue :
      Exec (QueueState amqp.Broker) (Unit {0}) → Exec (Setup svc amqp) (Unit {0})
  on_transaction_queue =
      on_queue (λ s. s.transaction_queue) (λ channel s. record s { transaction_queue = channel })

  abbrev pub on_retry_queue :
      Exec (QueueState amqp.Broker) (Unit {0}) → Exec (Setup svc amqp) (Unit {0})
  on_retry_queue =
      on_queue (λ s. s.retry_transaction_queue)
        (λ channel s. record s { retry_transaction_queue = channel })

  abbrev pub on_aa_queue :
      Exec (QueueState amqp.Broker) (Unit {0}) → Exec (Setup svc amqp) (Unit {0})
  on_aa_queue = on_queue (λ s. s.aa_queue) (λ channel s. record s { aa_queue = channel })

  abbrev pub on_scw_queue :
      Exec (QueueState amqp.Broker) (Unit {0}) → Exec (Setup svc amqp) (Unit {0})
  on_scw_queue = on_queue (λ s. s.scw_queue) (λ channel s. record s { scw_queue = channel })

  abbrev pub consumes : QueueKind → ℕ → Exec (QueueState amqp.Broker) (Unit {0})
  consumes kind chain_id = do consume_queue amqp kind chain_id; pure tt

  abbrev pub route : TransactionType → Setup svc amqp → Setup svc amqp
  route type s = record s {
    route_transaction_to_relayer = with_route type s.route_transaction_to_relayer;
  }

  -- The branch of a type: its queue, the consumer of its messages, and its relay service.
  abbrev pub set_up_services : ChainConfig → TransactionType → Exec (Setup svc amqp) (Unit {0})
  set_up_services config aa = do
    modify (λ s. record s { aa_queue = false })
    on_aa_queue (connect_queue amqp config.queue_url QueueKind.aa)
    modify (λ s. record s { entry_points = s.entry_points ++ config.entry_point_data })
    on_aa_queue (consumes QueueKind.aa config.chain_id)
    modify (route aa)
  set_up_services config scw = do
    modify (λ s. record s { scw_queue = false })
    on_scw_queue (connect_queue amqp config.queue_url QueueKind.scw)
    on_scw_queue (consumes QueueKind.scw config.chain_id)
    modify (route scw)
  set_up_services config _ = pure tt

  -- A round of the loop over the chain's transaction types
  unfoldable pub set_up_type : ChainConfig → TransactionType → Exec (Setup svc amqp) (Unit {0})
  set_up_type config type = do
    the_manager (relayer_manager_name_of type)
    set_up_services config type

  unfoldable pub set_up_types :
      ChainConfig → List TransactionType → Exec (Setup svc amqp) (Unit {0})
  set_up_types config [] = pure tt
  set_up_types config (type ∷ types) = do set_up_type config type; set_up_types config types

  -- The chain's turn. `consume` of the two queues is not awaited.
  unfoldable pub set_up_chain : ChainConfig → Exec (Setup svc amqp) (Unit {0})
  set_up_chain config = do
    or_throw (given config.provider) ("No provider for chainId " & to_string config.chain_id)
    or_throw (gas_price_manager_setup config.chain_id)
        ("Gasprice service is not setup for chainId " & to_string config.chain_id)
    modify (λ s. record s { transaction_queue = false; retry_transaction_queue = false })
    on_transaction_queue (connect_queue amqp config.queue_url QueueKind.transaction_handler)
    on_retry_queue (connect_queue amqp config.queue_url QueueKind.retry)
    modify (λ s. record s { relayer_queue = record { items = [] } })
    set_up_managers config.relayer_managers
    detach (on_retry_queue (consumes QueueKind.retry config.chain_id))
    detach (on_transaction_queue (consumes QueueKind.transaction_handler config.chain_id))
    set_up_types config config.supported_transaction_type

  -- The module's maps before the chain's turn.
  abbrev pub before_setup : svc.World → amqp.Broker → Setup svc amqp
  before_setup w broker = record {
    route_transaction_to_relayer = λ type. false;
    entry_points = [];
    relayer_queue = record { items = [] };
    relayer_managers = [];
    create_relayer_mutex = false;
    fund_relayer_mutex = false;
    world = w;
    transaction_queue = false;
    retry_transaction_queue = false;
    aa_queue = false;
    scw_queue = false;
    broker = broker;
  }
