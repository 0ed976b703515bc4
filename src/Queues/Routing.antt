-- ===== src/Queues/Routing.antt =====
-- Where the messages of the queues go.
use relayer_node.Base.{
  ℕ, String, ◌≡◌, ◌≢◌, refl, sym, ap, ◌∙◌, Bool, true, false, Option, [], ◌∷◌, ◌++◌, str_eq, eq_iff,
  if◌then◌else◌, Bool-cases, inl, inr,
}
use relayer_node.Exec.{returned, ◌>>=◌}
use relayer_node.Queues.{
  QueueKind, exchange_name, routing_key, queue_name, Amqp, QueueState, publish_open, delay_of,
  publish_message,
}
use relayer_node.Queues.Names.{exchange_name-injective, routing_key-injective}
use relayer_node.Queues.Wiring.{AmqpLaws, IsWired, Reach, Reach-IsWired}

own_queue :
    (kind l : QueueKind) (c d : ℕ) (q : String)
    → exchange_name kind ≡ exchange_name l
    → routing_key kind c ≡ routing_key l d
    → q ≡ queue_name l d
    → q ≡ queue_name kind c
own_queue kind l c d q e k named =
    let same = exchange_name-injective kind l e in
    let chain = routing_key-injective kind c d (k ∙ ap (λ x. routing_key x d) (sym same)) in
    named ∙ ap (λ x. queue_name x d) (sym same) ∙ ap (queue_name kind) (sym chain)

true-ne-false : true ≢ false
true-ne-false h = cc

module _ (amqp : Amqp) (laws : AmqpLaws amqp) where
  open amqp use {Broker}

  -- The queues that are bound with an exchange and key of a queue: that queue alone.
  bound-own :
      (kind : QueueKind) (chain_id : ℕ) (w : Broker) (q : String)
      → IsWired amqp laws w
      → laws.bound w (exchange_name kind) (routing_key kind chain_id) (queue_name kind chain_id)
        ≡ true
      → laws.bound w (exchange_name kind) (routing_key kind chain_id) q
        ≡ str_eq (queue_name kind chain_id) q
  bound-own kind chain_id w q h own =
      elim (Bool-cases (laws.bound w (exchange_name kind) (routing_key kind chain_id) q)) [
        | inl bound ↦
            let (l, d, e, k, named) = h _ _ q bound in
            bound ∙ sym ((eq_iff _ q).1 (sym (own_queue kind l chain_id d q e k named)))
        | inr unbound ↦ elim (Bool-cases (str_eq (queue_name kind chain_id) q)) [
          | inl same ↦
              let e : queue_name kind chain_id ≡ q = (eq_iff _ q).0 same in
              ap (laws.bound w (exchange_name kind) (routing_key kind chain_id)) (sym e)
              ∙ own
              ∙ sym same
          | inr other ↦ unbound ∙ sym other
        ]
      ]

  pub publish_open-routes :
      (channel : Bool) (kind : QueueKind) (interval : ℕ → Option ℕ) (chain_id : ℕ)
      (content : String) (s : QueueState Broker)
      → channel ≡ true
      → IsWired amqp laws s.broker
      → laws.bound s.broker
          (exchange_name kind)
          (routing_key kind chain_id)
          (queue_name kind chain_id)
        ≡ true
      → ((publish_open amqp channel kind interval chain_id content s).0 ≡ returned true)
        × ((q : String)
            → laws.contents (publish_open amqp channel kind interval chain_id content s).1.broker q
              ≡ (if str_eq (queue_name kind chain_id) q
                  then laws.contents s.broker q ++ content ∷ []
                  else laws.contents s.broker q))
  unfolding ◌>>=◌
  publish_open-routes channel kind interval chain_id content s is_open wired own =
      let published =
        laws.publish-contents (exchange_name kind) (routing_key kind chain_id) content
          (delay_of amqp kind interval chain_id) s.broker in
      rw (is_open, published.0.1)
        (refl, λ q. rw (← bound-own kind chain_id s.broker q wired own) (published.1 q))

  -- From a broker without bindings, after any sequence of calls of the queues of all kinds and chains:
  -- a message that is published in a queue whose consumer has been bound is routed to that queue,
  -- after those that were routed there before, and to no other.
  pub publish_message-routes :
      {w : Broker} (kind : QueueKind) (interval : ℕ → Option ℕ) (chain_id : ℕ) (content : String)
      (s : QueueState Broker)
      → ((e k q : String) → laws.bound w e k q ≡ false)
      → Reach amqp laws w s.broker
      → s.has_channel ≡ true
      → laws.bound s.broker
          (exchange_name kind)
          (routing_key kind chain_id)
          (queue_name kind chain_id)
        ≡ true
      → ((publish_message amqp kind interval chain_id content s).0 ≡ returned true)
        × ((q : String)
            → laws.contents (publish_message amqp kind interval chain_id content s).1.broker q ≡ (
                if str_eq (queue_name kind chain_id) q
                then laws.contents s.broker q ++ content ∷ []
                else laws.contents s.broker q))
  unfolding publish_message ◌>>=◌
  publish_message-routes kind interval chain_id content s unbound reached channel own =
      publish_open-routes s.has_channel kind interval chain_id content s channel
        (Reach-IsWired amqp laws reached
          (λ e k q bound. absurd (true-ne-false (sym bound ∙ unbound e k q))))
        own
