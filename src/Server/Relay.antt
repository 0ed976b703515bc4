-- ===== src/Server/Relay.antt =====
-- server/src/controllers/relay and common/relay-service: a request that has passed its simulation
-- becomes a message of a queue and a row of the database. POST / is validateRelayRequest, then
-- simulateTransaction, then requestHandler.
use relayer_node.Base.{ℕ, zero, suc, String, false, Option, none, some, str_eq, if◌then◌else◌}
use relayer_node.Js.Text.{to_lower_case, ◌&◌}
use relayer_node.Exec.{Exec, ◌>>=◌, ◌>>◌, pure, gets, try_catch, or_throw, detach, unless_rejected}
use relayer_node.Types.{TransactionType, TransactionMethodType, TransactionStatus}
use relayer_node.TransactionDao.{TransactionData, no_data, dao_save}
use relayer_node.Backend.{Backend, on_database, QueueService}
use relayer_node.Consumers.{UserOperation, TransactionMessage}
use relayer_node.Server.{
  ScwParams, RelayRequest, text, exception, relayed, Response, Api, ApiState, refusal, on_backend,
  on_scw_queue, on_aa_queue, on_ids,
}
use relayer_node.Server.Validation.{validate_method}
use relayer_node.Server.Simulated.{of_chain, simulate_method, after_simulation}

-- RelayServiceResponseType, without the error that no relay service gives
pub record RelayServiceResponse : Type 0 where
  pub code : ℕ
  pub transaction_id : String

-- sendTransactionToRelayer of AARelayService and of SCWRelayService
unfoldable pub send_transaction_to_relayer :
    (q : QueueService TransactionMessage) → TransactionMessage → Exec q.Channel RelayServiceResponse
send_transaction_to_relayer q message = do
  q.publish message
  pure (record { code = 200; transaction_id = message.transaction.transaction_id })

-- gasLimit || (params[1] ? `0x…` : null), where an empty text stands for null
abbrev pub simulated_limit : (ℕ → String) → Option ℕ → String
simulated_limit to_hex none = ""
simulated_limit to_hex (some zero) = ""
simulated_limit to_hex (some (suc n)) = "0x" & to_hex (suc n)

abbrev pub gas_limit_or : Option String → String → String
gas_limit_or none simulated = simulated
gas_limit_or (some limit) simulated = if str_eq limit "" then simulated else limit

-- Number(gasLimitFromSimulation).toString(16)
abbrev pub number_text : (ℕ → String) → Option ℕ → String
number_text to_hex none = "0xNaN"
number_text to_hex (some n) = "0x" & to_hex n

abbrev no_sender : String
no_sender = "Cannot read properties of undefined (reading 'sender')"

abbrev no_address : String
no_address = "Cannot read properties of undefined (reading 'address')"

abbrev no_service : String
no_service = "Cannot read properties of undefined (reading 'sendTransactionToRelayer')"

abbrev or_empty_text : Option String → String
or_empty_text none = ""
or_empty_text (some s) = s

-- The message of an SCW request, and its row: the row has the type AA, and the address as it came.
abbrev pub scw_message :
    (ℕ → String) → RelayRequest → ScwParams → String → String → TransactionMessage
scw_message to_hex request p address transaction_id = record {
  transaction = record {
    to = p.to;
    value = p.value;
    call_data = p.call_data;
    gas_limit = gas_limit_or p.gas_limit (simulated_limit to_hex request.gas_limit_from_simulation);
    speed = none;
    wallet_address = to_lower_case address;
    transaction_id = transaction_id;
    meta_data = none;
  };
  user_op = none;
}

abbrev pub pending_row : ℕ → String → String → ℕ → TransactionData
pending_row chain_id wallet_address transaction_id now = record no_data {
  transaction_id = some transaction_id;
  transaction_type = some TransactionType.aa;
  status = some TransactionStatus.pending;
  chain_id = some chain_id;
  wallet_address = some wallet_address;
  resubmitted = some false;
  creation_time = some now;
}

abbrev pub aa_message : (ℕ → String) → RelayRequest → UserOperation → String → TransactionMessage
aa_message to_hex request user_op transaction_id = record {
  transaction = record {
    to = or_empty_text request.entry_point_address;
    value = "0x0";
    call_data = "0x0";
    gas_limit = number_text to_hex request.gas_limit_from_simulation;
    speed = none;
    wallet_address = to_lower_case user_op.sender;
    transaction_id = transaction_id;
    meta_data = request.meta_data;
  };
  user_op = some user_op;
}

module _ (b : Backend) (api : Api) where
  abbrev pub relayed_response : String → Response
  relayed_response transaction_id = record {
    code = 200;
    body = relayed transaction_id api.connection_url;
  }

  -- transactionDao.save, which is not awaited
  unfoldable pub save_row : (ℕ → TransactionData) → Exec (ApiState b api) (Unit {0})
  save_row row = do
    now ← gets (λ s. s.backend.now)
    detach (on_backend (on_database (dao_save b.collection (row now))))

  -- relaySCWTransaction
  unfoldable pub relay_scw_transaction : RelayRequest → Exec (ApiState b api) Response
  relay_scw_transaction request =
      try_catch
        (do
          p ← or_throw request.scw "Cannot destructure property 'type' of undefined"
          transaction_id ← on_ids (api.generate_transaction_id p.call_data)
          or_throw (of_chain b p.chain_id api.supports_scw) no_service
          address ← or_throw p.wallet_info no_address
          on_scw_queue (
              send_transaction_to_relayer api.scw_queue
                (scw_message api.to_hex request p address transaction_id))
          save_row (pending_row p.chain_id address transaction_id)
          pure (relayed_response transaction_id))
        (λ error. pure (refusal 500 (exception error)))

  -- relayAATransaction: sendTransactionToRelayer is not awaited, and a promise has no `error`. The id
  -- is of the text of the operation, which is an object. A rejected publish is handled by nobody and
  -- ends the process: the row, whose insertion is not awaited either, is not there by then, and the
  -- client is not answered.
  unfoldable pub relay_aa_transaction : RelayRequest → Exec (ApiState b api) Response
  relay_aa_transaction request =
      try_catch
        (do
          transaction_id ← on_ids (api.generate_transaction_id "[object Object]")
          user_op ← or_throw request.user_op no_sender
          chain_id ← or_throw request.chain_id no_service
          or_throw (of_chain b chain_id api.supports_aa) no_service
          unless_rejected (
              on_aa_queue (
                send_transaction_to_relayer api.aa_queue
                  (aa_message api.to_hex request user_op transaction_id)))
          save_row (λ now.
              record (pending_row chain_id (to_lower_case user_op.sender) transaction_id now) {
                meta_data = request.meta_data;
              })
          pure (relayed_response transaction_id))
        (λ error. pure (refusal 500 (exception error)))

  -- requestHandler
  unfoldable pub request_handler :
      Option TransactionMethodType → RelayRequest → Exec (ApiState b api) Response
  request_handler (some TransactionMethodType.aa) request = relay_aa_transaction request
  request_handler (some TransactionMethodType.scw) request = relay_scw_transaction request
  request_handler _ request = pure (refusal 400 (text "Wrong transaction type sent in request"))

  -- simulateTransaction, and requestHandler as what comes next
  unfoldable pub simulate_and_handle :
      Option TransactionMethodType → RelayRequest → Exec (ApiState b api) Response
  simulate_and_handle method request = do
    verdict ← simulate_method b api method request
    after_simulation b api verdict (λ gas_limit.
        request_handler method (record request { gas_limit_from_simulation = some gas_limit }))

  abbrev pub unless_refused :
      Option Response → Option TransactionMethodType → RelayRequest → Exec (ApiState b api) Response
  unless_refused (some response) method request = pure response
  unless_refused none method request = simulate_and_handle method request

  -- The handlers by the method of the request.
  unfoldable pub post_method :
      Option TransactionMethodType → RelayRequest → Exec (ApiState b api) Response
  post_method method request = unless_refused (validate_method api method request) method request

  -- relayApiRouter.post('/', …)
  unfoldable pub post_relay : RelayRequest → Exec (ApiState b api) Response
  post_relay request = post_method request.method request
