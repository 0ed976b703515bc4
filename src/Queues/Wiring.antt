-- ===== src/Queues/Wiring.antt =====
-- The bindings that the calls of the queues make, of all kinds and chains and in any order.
use relayer_node.Base.{
  ℕ, String, ◌≡◌, sym, ◌∙◌, Bool, true, false, Option, List, [], ◌∷◌, ◌++◌, if◌then◌else◌, inl, inr,
  ◌⊎◌,
}
use relayer_node.Exec.{
  returned, detach, bind_cases, bind_returned_cases, returned_cases, gets_cases, try_cases,
}
use relayer_node.Queues.{
  QueueKind, aa, scw, transaction_handler, retry, exchange_name, exchange_type, routing_key,
  queue_name, Amqp, QueueState, open_channel, connect_queue, publish_open, delay_of,
  without_channel, publish_message, set_up_consumer, consume_open, consume_queue, ack_open,
  ack_message,
}

-- What AMQP documents, for exchanges that compare keys: `contents` are the messages that have been
-- routed to a queue so far, and `bound` tells whether a queue is bound to an exchange with a key.
-- Only bindQueue binds, and only what it is asked to; only publish routes messages.
pub record AmqpLaws (amqp : Amqp) : Type 0 where
  pub contents : amqp.Broker → String → List String
  pub bound : amqp.Broker → (exchange key queue : String) → Bool
  pub connect-bound :
      (url : String) (w : amqp.Broker) (e k q : String)
      → bound (amqp.connect url w).1 e k q ≡ bound w e k q
  pub create_channel-bound :
      (w : amqp.Broker) (e k q : String) → bound (amqp.create_channel w).1 e k q ≡ bound w e k q
  pub assert_exchange-bound :
      (name type : String) (w : amqp.Broker) (e k q : String)
      → bound (amqp.assert_exchange name type w).1 e k q ≡ bound w e k q
  pub prefetch-bound :
      (n : ℕ) (w : amqp.Broker) (e k q : String) → bound (amqp.prefetch n w).1 e k q ≡ bound w e k q
  -- The queue that is asserted is the one that is asked for, if there is an answer.
  pub assert_queue-name :
      (name : String) (w : amqp.Broker) (queue : String)
      → (amqp.assert_queue name w).0 ≡ returned queue
      → queue ≡ name
  pub assert_queue-bound :
      (name : String) (w : amqp.Broker) (e k q : String)
      → bound (amqp.assert_queue name w).1 e k q ≡ bound w e k q
  pub bind_queue-bound :
      (queue exchange key : String) (w : amqp.Broker) (e k q : String)
      → bound (amqp.bind_queue queue exchange key w).1 e k q ≡ true
      → (bound w e k q ≡ true) ⊎ ((e ≡ exchange) × (k ≡ key) × (q ≡ queue))
  pub consume-bound :
      (queue : String) (w : amqp.Broker) (e k q : String)
      → bound (amqp.consume queue w).1 e k q ≡ bound w e k q
  pub ack-bound :
      (content : String) (w : amqp.Broker) (e k q : String)
      → bound (amqp.ack content w).1 e k q ≡ bound w e k q
  -- An acknowledgement is not answered, and takes back nothing that was routed.
  pub ack-contents :
      (content : String) (w : amqp.Broker)
      → ((amqp.ack content w).0 ≡ returned tt)
        × ((q : String) → contents (amqp.ack content w).1 q ≡ contents w q)
  pub publish-bound :
      (exchange key content : String) (delay : Option ℕ) (w : amqp.Broker) (e k q : String)
      → bound (amqp.publish exchange key content delay w).1 e k q ≡ bound w e k q
  pub publish-contents :
      (exchange key content : String) (delay : Option ℕ) (w : amqp.Broker)
      → ((b : Bool) × ((amqp.publish exchange key content delay w).0 ≡ returned b))
        × ((q : String)
            → contents (amqp.publish exchange key content delay w).1 q
              ≡ (if bound w exchange key q then contents w q ++ content ∷ [] else contents w q))

module _ (amqp : Amqp) (laws : AmqpLaws amqp) where
  open amqp use {Broker}

  -- Every binding is that of a queue of this program.
  abbrev pub IsWired : Broker → Type 0
  IsWired w =
      (e k q : String)
      → laws.bound w e k q ≡ true
      → (kind : QueueKind) × (chain_id : ℕ) × (e ≡ exchange_name kind)
        × (k ≡ routing_key kind chain_id)
        × (q ≡ queue_name kind chain_id)

  -- A call of a method of a queue, whatever the state of its channel.
  pub data Step : Broker → Broker → Type 0 where
    connects :
        (url : String) (kind : QueueKind) (s : QueueState Broker)
        → Step s.broker (connect_queue amqp url kind s).1.broker
    publishes :
        (kind : QueueKind) (interval : ℕ → Option ℕ) (chain_id : ℕ) (content : String)
        (s : QueueState Broker)
        → Step s.broker (publish_message amqp kind interval chain_id content s).1.broker
    consumes :
        (kind : QueueKind) (chain_id : ℕ) (s : QueueState Broker)
        → Step s.broker (consume_queue amqp kind chain_id s).1.broker
    acks :
        (content : String) (s : QueueState Broker)
        → Step s.broker (ack_message amqp content s).1.broker

  pub data Reach (w : Broker) : Broker → Type 0 where
    here : Reach w w
    next : {u v : Broker} → Reach w u → Step u v → Reach w v

  abbrev Wired : QueueState Broker → Type 0
  Wired s = IsWired s.broker

  same_bindings :
      (w u : Broker)
      → ((e k q : String) → laws.bound u e k q ≡ laws.bound w e k q)
      → IsWired w
      → IsWired u
  same_bindings w u same h e k q bound = h e k q (sym (same e k q) ∙ bound)

  open_channel-Wired :
      (channel : Bool) (kind : QueueKind) (t : QueueState Broker)
      → Wired t
      → Wired (open_channel amqp channel kind t).1
  unfolding detach
  open_channel-Wired true kind t k = k
  open_channel-Wired false kind t k =
      let created = same_bindings t.broker _ (laws.create_channel-bound t.broker) k in
      bind_cases Wired _ _ t created (λ _. returned_cases Wired tt _ _ _ (
        same_bindings _ _ (laws.assert_exchange-bound (exchange_name kind) (exchange_type kind) _)
          created))

  connect_queue-Wired :
      (url : String) (kind : QueueKind) (s : QueueState Broker)
      → Wired s
      → Wired (connect_queue amqp url kind s).1
  unfolding connect_queue
  connect_queue-Wired url kind s h =
      let connected = same_bindings s.broker _ (laws.connect-bound url s.broker) h in
      bind_cases Wired _ _ s connected
        (λ _. gets_cases Wired _ _ _ (open_channel-Wired _ kind _ connected))

  without_channel-Wired :
      (kind : QueueKind) (s : QueueState Broker) → Wired s → Wired (without_channel amqp kind s).1
  without_channel-Wired aa s h = h
  without_channel-Wired scw s h = h
  without_channel-Wired transaction_handler s h = h
  without_channel-Wired retry s h = h

  publish_open-Wired :
      (channel : Bool) (kind : QueueKind) (interval : ℕ → Option ℕ) (chain_id : ℕ)
      (content : String) (s : QueueState Broker)
      → Wired s
      → Wired (publish_open amqp channel kind interval chain_id content s).1
  publish_open-Wired false kind interval chain_id content s h = without_channel-Wired kind s h
  publish_open-Wired true kind interval chain_id content s h =
      let published =
        same_bindings s.broker _
          (laws.publish-bound (exchange_name kind) (routing_key kind chain_id) content
            (delay_of amqp kind interval chain_id) s.broker)
          h in
      bind_cases Wired _ _ s published (λ _. published)

  -- A binding that bindQueue makes is one of the queue that is set up.
  bind_queue-Wired :
      (kind : QueueKind) (chain_id : ℕ) (queue : String) (w : Broker)
      → queue ≡ queue_name kind chain_id
      → IsWired w
      → IsWired (amqp.bind_queue queue (exchange_name kind) (routing_key kind chain_id) w).1
  bind_queue-Wired kind chain_id queue w named h e k q bound =
      elim (laws.bind_queue-bound queue _ _ w e k q bound) [
        | inl old ↦ h e k q old
        | inr (at_exchange, by_key, to) ↦ (kind, chain_id, at_exchange, by_key, to ∙ named)
      ]

  set_up_consumer-Wired :
      (kind : QueueKind) (chain_id : ℕ) (s : QueueState Broker)
      → Wired s
      → Wired (set_up_consumer amqp kind chain_id s).1
  unfolding set_up_consumer detach
  set_up_consumer-Wired kind chain_id s h =
      let name = queue_name kind chain_id in
      let asserted = same_bindings s.broker _ (laws.assert_queue-bound name s.broker) h in
      try_cases Wired _ _ s
        (bind_returned_cases Wired _ _ s asserted (λ queue answered.
          let named = laws.assert_queue-name name s.broker queue answered in
          let wired = bind_queue-Wired kind chain_id queue _ named asserted in
          bind_cases Wired _ _ _ wired (λ _.
            let consumed = same_bindings _ _ (laws.consume-bound queue _) wired in
            bind_cases Wired _ _ _ consumed (λ _. consumed))))
        (λ e k. k)

  consume_open-Wired :
      (channel : Bool) (kind : QueueKind) (chain_id : ℕ) (s : QueueState Broker)
      → Wired s
      → Wired (consume_open amqp channel kind chain_id s).1
  unfolding detach
  consume_open-Wired false kind chain_id s h = h
  consume_open-Wired true kind chain_id s h =
      let fetched = same_bindings s.broker _ (laws.prefetch-bound 1 s.broker) h in
      bind_cases Wired _ _ s fetched (λ _. set_up_consumer-Wired kind chain_id _ fetched)

  ack_open-Wired :
      (channel : Bool) (content : String) (s : QueueState Broker)
      → Wired s
      → Wired (ack_open amqp channel content s).1
  ack_open-Wired false content s h = h
  ack_open-Wired true content s h = same_bindings s.broker _ (laws.ack-bound content s.broker) h

  Step-IsWired : {w u : Broker} → Step w u → IsWired w → IsWired u
  unfolding publish_message consume_queue ack_message
  Step-IsWired (connects url kind s) h = connect_queue-Wired url kind s h
  Step-IsWired (publishes kind interval chain_id content s) h =
      gets_cases Wired _ _ s (publish_open-Wired s.has_channel kind interval chain_id content s h)
  Step-IsWired (consumes kind chain_id s) h =
      gets_cases Wired _ _ s (consume_open-Wired s.has_channel kind chain_id s h)
  Step-IsWired (acks content s) h =
      gets_cases Wired _ _ s (ack_open-Wired s.has_channel content s h)

  pub Reach-IsWired : {w u : Broker} → Reach w u → IsWired w → IsWired u
  Reach-IsWired here h = h
  Reach-IsWired (next r st) h = Step-IsWired st (Reach-IsWired r h)
