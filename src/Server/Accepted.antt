-- ===== src/Server/Accepted.antt =====
-- Requests that are relayed.
use relayer_node.Base.{ℕ, String, ◌≡◌, Option, none, some, false, [], ◌∷◌, ◌++◌}
use relayer_node.Js.Text.{to_lower_case}
use relayer_node.Exec.{returned}
use relayer_node.Types.{TransactionType, TransactionMethodType, TransactionStatus}
use relayer_node.TransactionDao.{TransactionData, no_data, CollectionLaws}
use relayer_node.Backend.{Backend, QueueLaws}
use relayer_node.Consumers.{TransactionMessage}
use relayer_node.Server.{ScwParams, RelayRequest, Api, ApiState}
use relayer_node.Server.Relay.{
  gas_limit_or, simulated_limit, scw_message, pending_row, relayed_response, post_method,
}

-- What a request for a smart contract wallet asks to be queued and to be saved.
abbrev pub expected_message :
    (ℕ → String) → ScwParams → (address id : String) (gas_limit : ℕ) → TransactionMessage
expected_message to_hex p address id gas_limit = record {
  transaction = record {
    to = p.to;
    value = p.value;
    call_data = p.call_data;
    gas_limit = gas_limit_or p.gas_limit (simulated_limit to_hex (some gas_limit));
    speed = none;
    wallet_address = to_lower_case address;
    transaction_id = id;
    meta_data = none;
  };
  user_op = none;
}

abbrev pub expected_row : ℕ → (address id : String) (now : ℕ) → TransactionData
expected_row chain_id address id now = record no_data {
  transaction_id = some id;
  transaction_type = some TransactionType.aa;
  status = some TransactionStatus.pending;
  chain_id = some chain_id;
  wallet_address = some address;
  resubmitted = some false;
  creation_time = some now;
}

module _ (b : Backend) (api : Api) (collection : CollectionLaws b.collection) where
  abbrev with_limit : RelayRequest → ℕ → RelayRequest
  with_limit request gas_limit = record request { gas_limit_from_simulation = some gas_limit }

  module _ (queue : QueueLaws api.scw_queue) where
    abbrev Relayed :
        Option TransactionMethodType
        → RelayRequest
        → ScwParams
        → (address id : String) (gas_limit : ℕ) → ApiState b api
        → Type 0
    Relayed method request p address id gas_limit s =
        let t = (post_method b api method request s).1 in
        ((post_method b api method request s).0 ≡ returned (relayed_response b api id))
        × (queue.messages t.scw_queue
            ≡ queue.messages s.scw_queue
              ++ scw_message api.to_hex (with_limit request gas_limit) p address id ∷ [])
        × (collection.rows t.backend.database
            ≡ collection.rows s.backend.database
              ++ pending_row p.chain_id address id s.backend.now ∷ [])
        × (t.aa_queue ≡ s.aa_queue)
