-- ===== src/Queues/Service.antt =====
-- The queues of common/queue as the queues that the services of a chain publish to.
use relayer_node.Base.{
  ℕ, String, ◌≡◌, refl, ap, ◌∙◌, true, Option, none, some, List, [], ◌∷◌, ◌++◌, str_eq_refl, inl,
  inr, Option-cases,
}
use relayer_node.Exec.{◌>>=◌, bind_cases, gets_cases}
use relayer_node.Backend.{QueueService, QueueLaws}
use relayer_node.Queues.{
  QueueKind, exchange_name, routing_key, queue_name, Amqp, QueueState, publish_message, ack_message,
}
use relayer_node.Queues.Wiring.{AmqpLaws, IsWired, publishes, acks, here, next, Reach-IsWired}
use relayer_node.Queues.Routing.{publish_open-routes}

-- The messages that the texts stand for.
unfoldable pub decoded {ℓ} : {M : Type ℓ} → (String → Option M) → List String → List M
decoded parse [] = []
decoded parse (text ∷ texts) = elim (parse text) [
  | none ↦ decoded parse texts
  | some m ↦ m ∷ decoded parse texts
]

decoded-append {ℓ} :
    {M : Type ℓ} (parse : String → Option M) (texts : List String) (text : String) (m : M)
    → parse text ≡ some m
    → decoded parse (texts ++ text ∷ []) ≡ decoded parse texts ++ m ∷ []
unfolding decoded
decoded-append parse [] text m h = rw (h, decoded) refl
decoded-append parse (first ∷ texts) text m h =
    let rest = decoded-append parse texts text m h in
    elim (Option-cases (parse first)) [
      | inl e ↦ rw (e, decoded) rest
      | inr (a, e) ↦ rw (e, decoded) (ap (λ l. a ∷ l) rest)
    ]

module _ (amqp : Amqp) (laws : AmqpLaws amqp) (kind : QueueKind) (chain_id : ℕ) where
  open amqp use {Broker}

  abbrev pub IsOwn : Broker → Type 0
  IsOwn w =
      laws.bound w (exchange_name kind) (routing_key kind chain_id) (queue_name kind chain_id)
      ≡ true

  -- A queue of a chain that is connected, and whose consumer is bound.
  pub record OpenQueue : Type 0 where
    pub broker : Broker
    pub wired : IsWired amqp laws broker
    pub own : IsOwn broker

  abbrev pub state_of : OpenQueue → QueueState Broker
  state_of c = record { has_channel = true; broker = c.broker }

  abbrev Own : QueueState Broker → Type 0
  Own s = IsOwn s.broker

  module _ (interval : ℕ → Option ℕ) where
    pub IsOwn-publish :
        (content : String) (c : OpenQueue)
        → IsOwn (publish_message amqp kind interval chain_id content (state_of c)).1.broker
    unfolding publish_message
    IsOwn-publish content c =
        let published = laws.publish-bound _ _ content _ c.broker _ _ _ ∙ c.own in
        gets_cases Own _ _ (state_of c) (bind_cases Own _ _ (state_of c) published (λ _. published))

    pub IsOwn-ack :
        (content : String) (c : OpenQueue) → IsOwn (ack_message amqp content (state_of c)).1.broker
    unfolding ack_message
    IsOwn-ack content c =
        gets_cases Own _ _ (state_of c) (laws.ack-bound content c.broker _ _ _ ∙ c.own)

    -- publish and ack of an open queue, for messages that are printed as JSON.
    abbrev pub queue_service : {M : Type 0} → (M → String) → QueueService M
    queue_service stringify = record {
      Channel = OpenQueue;
      publish = λ m c.
          let r = publish_message amqp kind interval chain_id (stringify m) (state_of c) in
          (
            r.0,
            record {
              broker = r.1.broker;
              wired =
                  Reach-IsWired amqp laws
                    (next here (publishes kind interval chain_id (stringify m) (state_of c)))
                    c.wired;
              own = IsOwn-publish (stringify m) c;
            },
          );
      ack = λ m c.
          let r = ack_message amqp (stringify m) (state_of c) in
          (
            r.0,
            record {
              broker = r.1.broker;
              wired = Reach-IsWired amqp laws (next here (acks (stringify m) (state_of c))) c.wired;
              own = IsOwn-ack (stringify m) c;
            },
          );
    }

    -- Each of the four queues, once it is connected and its consumer is bound, keeps what the services
    -- rely on, if JSON.parse gives back every message that JSON.stringify prints: a message that is
    -- published comes after those that were routed to the queue before, also after others were
    -- acknowledged, and publishing and acknowledging always return.
    pub queue_service-QueueLaws :
        {M : Type 0} (stringify : M → String) (parse : String → Option M)
        → ((m : M) → parse (stringify m) ≡ some m)
        → QueueLaws (queue_service stringify)
    unfolding publish_message ack_message ◌>>=◌
    queue_service-QueueLaws stringify parse parses =
        let name = queue_name kind chain_id in
        record {
          messages = λ c. decoded parse (laws.contents c.broker name);
          publish-messages = λ m c.
              let r =
                publish_open-routes amqp laws true kind interval chain_id (stringify m) (state_of c)
                  refl c.wired c.own in
              (
                (true, r.0),
                ap (decoded parse) (r.1 name ∙ rw (str_eq_refl name) refl)
                    ∙ decoded-append parse (laws.contents c.broker name) (stringify m) m (parses m),
              );
          ack-messages = λ m c.
              let acked = laws.ack-contents (stringify m) c.broker in
              (acked.0, ap (decoded parse) (acked.1 name));
        }
