-- ===== src/Tests/Watching.antt =====
-- A status page with a manager, and a broker whose bindings are a list.
use relayer_node.Base.{
  some, ◌<◌, String, ◌≡◌, refl, ◌↔◌, Bool, true, false, ◌&&◌, ◌||◌, none, List, [], ◌∷◌, ◌++◌,
  str_eq, eq_iff, if◌then◌else◌, inl, inr, ◌⊎◌,
}
use relayer_node.Exec.{Result, returned, thrown, ◌>>=◌, try_catch, detach}
use relayer_node.Js.Text.{to_string}
use relayer_node.Js.Dict.{lookup}
use relayer_node.RelayerQueue.Members.{occurrences}
use relayer_node.RelayerManager.Consistency.{present, nothing}
use relayer_node.RelayerManager.Lifecycle.{
  here, next, creates, new_state, new_state-IsWellFormed, Reach-IsConsistent,
}
use relayer_node.RelayerManager.Create.{create_relayers}
use relayer_node.RelayerManager.Operations.{add_active_relayer}
use relayer_node.RelayerManager.Lifecycle.Returns.{Free, Reach-returns}
use relayer_node.Exec.Ends.{Reaches}
use relayer_node.RelayerManager.State.{State}
use relayer_node.Tests.Instances.{test_services, test_services-HasDistinctAddresses, test_options}
use relayer_node.Types.{NetworkBasedGasPrice, eip1559}
use relayer_node.Status.{active, processing, check_manager, check_network_service, status_with}
use relayer_node.Status.Networks.{EvmNetwork, served, check_network_service-active}
use relayer_node.Tests.Chain.{test_provider}
use relayer_node.Tests.Transactions.{refusing, nonce_too_low}
use relayer_node.Status.Relayers.{listed, check_manager-listed}
use relayer_node.Queues.{
  QueueKind, scw, Amqp, QueueState, exchange_name, routing_key, queue_name, publish_message,
  connect_queue, consume_queue, set_up_consumer,
}
use relayer_node.Queues.Wiring
use relayer_node.Queues.Service.{queue_service, queue_service-QueueLaws}
use relayer_node.Backend.{QueueLaws}
use relayer_node.Queues.Wiring.{AmqpLaws, connects, consumes}
use relayer_node.Queues.Routing.{publish_message-routes}

abbrev price : NetworkBasedGasPrice
price = eip1559 "1" "2"

-- A manager that has made two relayers.
abbrev created : State Unit
created =
    (create_relayers (test_services price) 2 (new_state (test_services price) test_options tt)).1

abbrev last : String
last = "m/44'/60'/0'/0/1"

check_manager-listed_example :
    ((0 < listed active last (check_manager "now" created.manager))
      ↔ (0 < occurrences last created.manager.relayer_queue.items))
    × ((0 < listed processing last (check_manager "now" created.manager))
        ↔ (0 < present (lookup last created.manager.transaction_processing_relayer_map)))
check_manager-listed_example =
    check_manager-listed "now" created.manager (test_services price)
      (Reach-IsConsistent (test_services price) (test_services-HasDistinctAddresses price) nothing
        (next here (creates (new_state (test_services price) test_options tt) 2))
        (new_state-IsWellFormed (test_services price) test_options tt))
      last

is_free : (new_state (test_services price) test_options tt).create_relayer_mutex ≡ false
unfolding new_state
is_free = refl

Reach-returns_example :
    Reaches (Free (test_services price)) (create_relayers (test_services price) 1 created)
    × Reaches (Free (test_services price)) (add_active_relayer (test_services price) last created)
Reach-returns_example =
    Reach-returns (test_services price) (λ a w. tt) (λ a w. tt)
      (next here (creates (new_state (test_services price) test_options tt) 2)) is_free 1 last

-- A network whose node refuses every call.
abbrev refusing_network : EvmNetwork
refusing_network = record {
  provider = record (test_provider refusing) { call = λ url request c. (thrown nonce_too_low, c) };
  net = record {
    rpc_url = "rpc";
    provider_url = "rpc";
    fallback_rpc_urls = "backup" ∷ [];
    chain = tt;
  };
}

check_network_service-active_example :
    (check_network_service "now" "0x00" ((137, served refusing_network) ∷ [])).0
    ≡ returned ((137, status_with "now" true) ∷ [])
check_network_service-active_example =
    check_network_service-active "now" "0x00" ((137, refusing_network) ∷ []) ((λ p. cc), tt)

-- A broker: what is bound, and what has been routed.
abbrev Bindings : Type 0
Bindings = String → String → String → Bool

abbrev TestBroker : Type 0
TestBroker = Bindings × (String → List String)

abbrev bind : String → String → String → Bindings → Bindings
bind queue exchange key before e k q =
    (str_eq e exchange && (str_eq k key && str_eq q queue)) || before e k q

abbrev route : String → String → String → TestBroker → String → List String
route exchange key content w q = if w.0 exchange key q then w.1 q ++ content ∷ [] else w.1 q

abbrev pub test_amqp : Amqp
test_amqp = record {
  Broker = TestBroker;
  connect = λ url w. (returned tt, w);
  create_channel = λ w. (returned tt, w);
  assert_exchange = λ name type w. (returned tt, w);
  prefetch = λ n w. (returned tt, w);
  assert_queue = λ name w. (returned name, w);
  bind_queue = λ queue exchange key w. (returned tt, (bind queue exchange key w.0, w.1));
  consume = λ queue w. (returned tt, w);
  publish = λ exchange key content delay w. (returned true, (w.0, route exchange key content w));
  ack = λ content w. (returned tt, w);
}

or_cases :
    (x y z o : Bool)
    → ((x && (y && z)) || o) ≡ true
    → (o ≡ true) ⊎ ((x ≡ true) × (y ≡ true) × (z ≡ true))
or_cases true true true o h = inr (refl, refl, refl)
or_cases true true false o h = inl h
or_cases true false z o h = inl h
or_cases false y z o h = inl h

bound_by :
    (queue exchange key : String) (w : TestBroker) (e k q : String)
    → bind queue exchange key w.0 e k q ≡ true
    → (w.0 e k q ≡ true) ⊎ ((e ≡ exchange) × (k ≡ key) × (q ≡ queue))
bound_by queue exchange key w e k q h =
    elim (or_cases (str_eq e exchange) (str_eq k key) (str_eq q queue) (w.0 e k q) h) [
      | inl old ↦ inl old
      | inr (x, y, z) ↦ inr ((eq_iff _ _).0 x, (eq_iff _ _).0 y, (eq_iff _ _).0 z)
    ]

same_name :
    (name queue : String) → ◌≡◌ {A = Result String} (returned name) (returned queue) → queue ≡ name
same_name name queue h = cc

abbrev test_amqp-AmqpLaws : AmqpLaws test_amqp
test_amqp-AmqpLaws = record {
  contents = λ w. w.1;
  bound = λ w. w.0;
  connect-bound = λ url w e k q. refl;
  create_channel-bound = λ w e k q. refl;
  assert_exchange-bound = λ name type w e k q. refl;
  prefetch-bound = λ n w e k q. refl;
  assert_queue-name = λ name w queue h. same_name name queue h;
  assert_queue-bound = λ name w e k q. refl;
  bind_queue-bound = bound_by;
  consume-bound = λ queue w e k q. refl;
  ack-bound = λ content w e k q. refl;
  ack-contents = λ content w. (refl, λ q. refl);
  publish-bound = λ exchange key content delay w e k q. refl;
  publish-contents = λ exchange key content delay w. ((true, refl), λ q. refl);
}

abbrev empty_broker : QueueState TestBroker
empty_broker = record { has_channel = false; broker = ((λ e k q. false), λ q. []) }

-- The queue of chain 137 is connected and consumed.
abbrev connected : QueueState TestBroker
connected = (connect_queue test_amqp "amqp://" scw empty_broker).1

abbrev consumed : QueueState TestBroker
consumed = (consume_queue test_amqp scw 137 connected).1

is_bound :
    (consumed.has_channel ≡ true)
    × (consumed.broker.0 (exchange_name scw) (routing_key scw 137) (queue_name scw 137) ≡ true)
unfolding connect_queue consume_queue set_up_consumer exchange_name routing_key queue_name to_string
    detach try_catch ◌>>=◌
is_bound = (refl, refl)

publish_message-routes_example :
    ((publish_message test_amqp scw (λ c. none) 137 "{}" consumed).0 ≡ returned true)
    × ((q : String)
        → (publish_message test_amqp scw (λ c. none) 137 "{}" consumed).1.broker.1 q ≡ (
            if str_eq (queue_name scw 137) q
            then consumed.broker.1 q ++ "{}" ∷ []
            else consumed.broker.1 q))
publish_message-routes_example =
    publish_message-routes test_amqp test_amqp-AmqpLaws scw (λ c. none) 137 "{}" consumed
      (λ e k q. refl)
      (Wiring.next (Wiring.next Wiring.here (connects "amqp://" scw empty_broker))
        (consumes scw 137 connected))
      is_bound.0 is_bound.1

-- The queue of texts, printed as they are.
queue_service-QueueLaws_example : QueueLaws (
    queue_service test_amqp test_amqp-AmqpLaws QueueKind.retry 137
      (λ c. some 60000)
      {M = String}
      (λ text. text))
queue_service-QueueLaws_example =
    queue_service-QueueLaws test_amqp test_amqp-AmqpLaws QueueKind.retry 137 (λ c. some 60000)
      {M = String} (λ text. text) some (λ text. refl)
