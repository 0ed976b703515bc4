-- ===== src/TransactionService/Execute.antt =====
-- Executing a transaction over the RPC nodes: how the errors of a node come back.
use relayer_node.Base.{
  String, ◌≡◌, refl, ap, some, inl, inr, Bool-cases, str_eq, ◌≢◌, eq_iff, arith,
}
use relayer_node.Exec.{
  JsError, Exec, Result, returned, thrown, waiting, ◌>>=◌, pure, try_catch, or_throw, continue,
  handle,
}
use relayer_node.Types.{Fetched, EvmRawTransaction, Account, TransactionResponse}
use relayer_node.Network.{
  send_transaction, Provider, Network, error_text, wrapped, evm_network_service,
  network_send_transaction,
}
use relayer_node.Network.Errors.{settled, use_provider-settled}
use text.Mathlib.TextLemmas.{cons-append}
use relayer_node.Backend.{Backend, State}
use relayer_node.TransactionService.{
  ExecuteResponse, executed, not_executed, parse_error, execute_response, execute_transaction,
}

-- The services of a chain whose network service is EVMNetworkService.
abbrev pub on_evm : Backend → Provider → Backend
on_evm b p = record b { network = evm_network_service p }

-- The transaction as it is signed: sent by the account.
abbrev pub signed_by : Account → EvmRawTransaction → EvmRawTransaction
signed_by account raw_transaction = record raw_transaction { from = account.public_key }

-- What executeTransaction answers when the node has answered or failed.
abbrev pub execution_of :
    EvmRawTransaction → Result TransactionResponse → Result (ExecuteResponse × EvmRawTransaction)
execution_of raw (returned response) = returned (executed response, raw)
execution_of raw (thrown e) = returned (not_executed (error_text e), raw)
execution_of raw waiting = waiting

error_text-nonempty : (e : JsError) → error_text e ≢ ""
unfolding error_text
error_text-nonempty e = elim (Bool-cases (str_eq e.message "")) [
  | inl empty ↦ rw empty (λ p. cc)
  | inr text ↦ rw (text, cons-append "E" "rror: " e.message) (λ p. cc)
]

-- The text is not empty, and parseError gives it back.
parse_error-wrapped : (e : JsError) → parse_error (wrapped e) ≡ error_text e
unfolding parse_error
parse_error-wrapped e = ground (arith, eq_iff (error_text e) "", error_text-nonempty e)

module _ (p : Provider) where
  -- Once the transaction is signed, sending it gives the node's answer, or its error, in a new one, as a value.
  network_send_transaction-settled :
      (raw : EvmRawTransaction) (account : Account) (tx : String) (c : p.Chain)
      (s : Network p.Chain)
      → p.sign_transaction account.private_key (signed_by account raw) s.chain ≡ (returned tx, c)
      → let answer = p.call s.provider_url (send_transaction tx) c in
        network_send_transaction p raw (some account) s
        ≡ (settled answer.0, record s { chain = answer.1 })
  unfolding network_send_transaction or_throw ◌>>=◌
  network_send_transaction-settled raw account tx c s signed =
      rw signed (use_provider-settled p (send_transaction tx) (record s { chain = c }))

  module _ (b : Backend) where
    after_settled :
        (raw : EvmRawTransaction)
        (h : JsError → Exec (State (on_evm b p)) (ExecuteResponse × EvmRawTransaction))
        (r : Result TransactionResponse) (s : State (on_evm b p))
        → (let t = continue (settled r) (λ x. pure (execute_response (on_evm b p) x, raw)) s in
            handle t.0 h t.1)
          ≡ (execution_of raw r, s)
    after_settled raw h (returned response) s = refl
    after_settled raw h (thrown e) s =
        ap (λ t. (returned (not_executed t, raw), s)) (parse_error-wrapped e)
    after_settled raw h waiting s = refl

    -- With the EVM network service, the execution of a transaction that is signed is one call of the
    -- node. Whatever the error of a node is, the answer is its text as String() gives it: the branches
    -- that renew the nonce or raise the gas price are not reached, and the transaction is unchanged.
    pub execute_transaction-of_signed :
        (raw : EvmRawTransaction) (account : Account) (tx : String) (c : p.Chain)
        (s : State (on_evm b p))
        → p.sign_transaction account.private_key (signed_by account raw) s.network.chain
          ≡ (returned tx, c)
        → let answer = p.call s.network.provider_url (send_transaction tx) c in
          execute_transaction (on_evm b p) raw (some account) s ≡ (
            execution_of raw answer.0,
            record s { network = record s.network { chain = answer.1 } },
          )
    unfolding execute_transaction try_catch ◌>>=◌
    execute_transaction-of_signed raw account tx c s signed =
        rw (network_send_transaction-settled raw account tx c s.network signed)
          (after_settled raw _ _ _)

module _ (b : Backend) where
  -- An execution is one call of the network service, where that does not throw.
  pub execute_lem :
      (raw : EvmRawTransaction) (account : Account) (answer : Fetched TransactionResponse)
      (network : b.network.Net) (t : State b)
      → b.network.submit raw (some account) t.network ≡ (returned answer, network)
      → execute_transaction b raw (some account) t
        ≡ (returned (execute_response b answer, raw), record t { network = network })
  unfolding execute_transaction try_catch ◌>>=◌
  execute_lem raw account answer network t sent = rw sent refl
