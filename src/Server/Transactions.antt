-- ===== src/Server/Transactions.antt =====
-- server/src/controllers/transaction-status and transaction-resubmit, with their middleware: what a
-- client asks of a transaction that was relayed, by its id.
pub mod Pending
pub mod Resubmitted
pub mod Tracked
use relayer_node.Base.{
  ℕ, zero, suc, ℤ, pos, negsuc, String, Bool, true, false, Option, none, some, List, [], ◌∷◌, ◌==◌,
  if◌then◌else◌,
}
use relayer_node.Js.Text.{parse_int, to_string, ◌&◌}
use relayer_node.Js.Dict.{Dict, lookup}
use relayer_node.Exec.{JsError, Result, Exec, ◌>>=◌, pure, throw, try_catch, or_throw}
use relayer_node.Types.{
  TransactionType, aa, scw, cross_chain, funding, fetched, EvmRawTransaction, Account,
  TransactionResponse,
}
use relayer_node.TransactionDao.{TransactionData, get_by_transaction_id}
use relayer_node.RelayerManager.State.{RelayerManager}
use relayer_node.RelayerManager.Operations.{get_relayer}
use relayer_node.Backend.{Backend, State, on_database}
use relayer_node.TransactionService.{
  ExecuteResponse, executed, not_executed, parse_error, execute_transaction,
}
use relayer_node.Server.{
  JoiError, TransactionView, text, unspecified, status_of, resubmitted, Response, refusal,
}
use relayer_node.Js.Join.{join_commas}

-- The databases as the DAO selects them by a chain id: the networks of the configuration, and what
-- the collections of the chains that the services are not of have for a transaction id.
pub record Databases : Type 0 where
  pub supported_networks : List ℕ
  pub on_other : (network_id : ℕ) (transaction_id : String) → Result (List TransactionData)

-- supportedNetworks.includes(networkId)
unfoldable pub includes_network : List ℕ → ℕ → Bool
includes_network [] network_id = false
includes_network (n ∷ networks) network_id =
    if n == network_id then true else includes_network networks network_id

abbrev not_supported : String → JsError
not_supported network_id = record { message = "Network Id " & network_id & " is not supported" }

-- req.query of GET /status
pub record StatusRequest : Type 0 where
  pub chain_id : String
  pub transaction_id : String

-- req.body of POST /resubmit, of the chain of the services. The gas price is an integer below 10^21, which parseInt leaves as it is.
pub record ResubmitRequest : Type 0 where
  pub transaction_id : String
  pub gas_price : ℕ

-- relayerManagerTransactionTypeNameMap
abbrev pub relayer_manager_name_of : TransactionType → String
relayer_manager_name_of aa = "RM1"
relayer_manager_name_of scw = "RM1"
relayer_manager_name_of cross_chain = "RM2"
relayer_manager_name_of funding = "RM0"

abbrev undefined_name : String
undefined_name = "Cannot read properties of undefined"

-- The type of a row by which its manager is looked for.
abbrev pub manager_of : Dict RelayerManager → Option TransactionType → Option RelayerManager
manager_of managers none = none
manager_of managers (some type) = lookup (relayer_manager_name_of type) managers

-- The raw transaction of a resubmission: that of the row, at another price.
abbrev pub raw_transaction_of :
    (account : Account) (chain_id : ℕ) (gas_price_in_hex : String) (raw : TransactionResponse)
    → EvmRawTransaction
raw_transaction_of account chain_id gas_price_in_hex raw = record {
  from = account.public_key;
  gas_price = some gas_price_in_hex;
  max_priority_fee_per_gas = none;
  max_fee_per_gas = none;
  gas_limit = raw.gas_limit;
  to = raw.to;
  value = raw.value;
  call_data = raw.call_data;
  chain_id = chain_id;
  nonce = fetched raw.nonce;
  access_list = none;
  type = none;
}

-- What is shown of the latest row; the earlier rows tell whether it replaces another transaction.
abbrev pub view_of : String → TransactionData → List TransactionData → TransactionView
view_of chain_id row earlier = record {
  chain_id = parse_int chain_id;
  transaction_id = row.transaction_id;
  status = row.status;
  transaction_hash = row.transaction_hash;
  gas_price = row.gas_price;
  receipt = row.receipt;
  previous_transaction_hash = elim earlier [
    | [] ↦ none
    | other ∷ others ↦ row.previous_transaction_hash
  ];
}

abbrev pub status_response : String → List TransactionData → Response
status_response chain_id [] = refusal 404 (text "Transaction not found")
status_response chain_id (row ∷ earlier) = record {
  code = 200;
  body = status_of (view_of chain_id row earlier);
}

abbrev pub resubmit_response : ExecuteResponse → Response
resubmit_response (executed response) = record { code = 200; body = resubmitted response }
resubmit_response (not_executed error) = refusal 400 (text error)

module _ (b : Backend) where
  module _ (d : Databases) where
    -- getBlockchainTransaction selects the collection, of a client that is connected; a query of it
    -- follows. A chain id that is no number is NaN.
    unfoldable pub rows_on : Option ℤ → String → Exec (State b) (List TransactionData)
    rows_on (some (pos n)) transaction_id =
        if includes_network d.supported_networks n
        then (if n == b.chain_id
            then on_database (get_by_transaction_id b.collection transaction_id)
            else (λ s. (d.on_other n transaction_id, s)))
        else throw (not_supported (to_string n))
    rows_on (some (negsuc n)) transaction_id = throw (not_supported ("-" & to_string (suc n)))
    rows_on none transaction_id = throw (not_supported "NaN")

    -- transactionStatusApi: the rows are read outside the `try`.
    unfoldable pub transaction_status : StatusRequest → Exec (State b) Response
    transaction_status request = do
      rows ← rows_on (parse_int request.chain_id) request.transaction_id
      pure (status_response request.chain_id rows)

  module _ (managers : Dict RelayerManager) (to_hex : ℕ → String) where
    unfoldable pub resubmit_by :
        Option Account → TransactionData → ResubmitRequest → Exec (State b) Response
    resubmit_by none row request = pure (refusal 404 (text "Relayer not found"))
    resubmit_by (some relayer) row request = do
      raw ← or_throw row.raw_transaction undefined_name
      result ←
          execute_transaction b
            (raw_transaction_of relayer b.chain_id ("0x" & to_hex request.gas_price) raw)
            (some relayer)
      pure (resubmit_response result.0)

    unfoldable pub resubmit_row : TransactionData → ResubmitRequest → Exec (State b) Response
    resubmit_row row request = do
      manager ← or_throw (manager_of managers row.transaction_type) undefined_name
      address ← or_throw row.relayer_address undefined_name
      resubmit_by (get_relayer manager address) row request

    -- A transaction that has not exactly one row is not found.
    abbrev pub resubmit_rows : List TransactionData → ResubmitRequest → Exec (State b) Response
    resubmit_rows (row ∷ []) request =
        try_catch (resubmit_row row request) (λ e. pure (refusal 500 (text (parse_error e))))
    resubmit_rows rows request = pure (refusal 404 (text "Transaction not found"))

    -- transactionResubmitApi, of the services of the chain
    unfoldable pub transaction_resubmit : ResubmitRequest → Exec (State b) Response
    transaction_resubmit request = do
      rows ← on_database (get_by_transaction_id b.collection request.transaction_id)
      resubmit_rows rows request
