-- ===== src/Server/Transactions/Resubmitted.antt =====
-- What a resubmission leaves alone.
use relayer_node.Base.{
  ℕ, String, ◌≡◌, refl, ap, ◌∙◌, ◌||◌, inl, inr, Bool-cases, Option, none, some, List, [], ◌∷◌,
}
use relayer_node.Js.Text.{includes}
use relayer_node.Js.Dict.{Dict}
use relayer_node.Exec.{◌>>=◌, JsError, bind_cases, try_cases, or_throw_cases}
use relayer_node.Types.{EvmRawTransaction, Account}
use relayer_node.TransactionDao.{
  TransactionData, CollectionLaws, latest_first, get_by_transaction_id,
}
use relayer_node.RelayerManager.State.{RelayerManager}
use relayer_node.Backend.{Backend, State}
use relayer_node.TransactionService.{
  execute_transaction, text_or_undefined, on_execution_error, renew_nonce, raise_price, parse_error,
}
use relayer_node.TransactionService.Keeps.{Keeps}
use relayer_node.Server.Transactions.Pending.{by_id}
use relayer_node.Server.Transactions.{
  ResubmitRequest, resubmit_by, resubmit_row, resubmit_rows, transaction_resubmit,
}

module _ (b : Backend) where
  renew_nonce-Keeps :
      (raw : EvmRawTransaction) (error : String) (s t : State b)
      → Keeps b s t
      → Keeps b s (renew_nonce b raw error t).1
  unfolding renew_nonce
  renew_nonce-Keeps raw error s t k = bind_cases (Keeps b s) _ _ t k (λ _. k)

  raise_price-Keeps :
      (raw : EvmRawTransaction) (error : String) (s t : State b)
      → Keeps b s t
      → Keeps b s (raise_price b raw error t).1
  unfolding raise_price
  raise_price-Keeps raw error s t k =
      bind_cases (Keeps b s) _ _ t k (λ price. or_throw_cases (Keeps b s) _ _ _ _ k (λ _. k))

  on_execution_error-Keeps :
      (raw : EvmRawTransaction) (e : JsError) (s t : State b)
      → Keeps b s t
      → Keeps b s (on_execution_error b raw e t).1
  unfolding on_execution_error
  on_execution_error-Keeps raw e s t k =
      let error = parse_error e in
      elim (Bool-cases (
        includes (text_or_undefined b.nonce_error) error
        || includes "increasing the gas price or incrementing the nonce" error)) [
          | inl h ↦ rw h (renew_nonce-Keeps raw error s t k)
          | inr h ↦ rw h (elim (Bool-cases (includes b.replacement_underpriced error)) [
            | inl i ↦ rw i (raise_price-Keeps raw error s t k)
            | inr i ↦
                rw i
                  (elim (Bool-cases
                    (includes b.already_known error || includes b.insufficient_funds error)) [
                      | inl j ↦ rw j k
                      | inr j ↦ rw j k
                    ])
          ])
        ]

  execute_transaction-Keeps :
      (raw : EvmRawTransaction) (account : Option Account) (s t : State b)
      → Keeps b s t
      → Keeps b s (execute_transaction b raw account t).1
  unfolding execute_transaction
  execute_transaction-Keeps raw account s t k =
      try_cases (Keeps b s) _ _ t (bind_cases (Keeps b s) _ _ t k (λ _. k))
        (λ e h. on_execution_error-Keeps raw e s _ h)

  module _ (managers : Dict RelayerManager) (to_hex : ℕ → String) where
    resubmit_by-Keeps :
        (relayer : Option Account) (row : TransactionData) (request : ResubmitRequest)
        (s t : State b)
        → Keeps b s t
        → Keeps b s (resubmit_by b managers to_hex relayer row request t).1
    unfolding resubmit_by
    resubmit_by-Keeps none row request s t k = k
    resubmit_by-Keeps (some relayer) row request s t k =
        or_throw_cases (Keeps b s) _ _ _ t k (λ raw.
          bind_cases (Keeps b s) _ _ t (execute_transaction-Keeps _ (some relayer) s t k)
            (λ result. execute_transaction-Keeps _ (some relayer) s t k))

    resubmit_row-Keeps :
        (row : TransactionData) (request : ResubmitRequest) (s t : State b)
        → Keeps b s t
        → Keeps b s (resubmit_row b managers to_hex row request t).1
    unfolding resubmit_row
    resubmit_row-Keeps row request s t k = or_throw_cases (Keeps b s) _ _ _ t k (λ manager.
        or_throw_cases (Keeps b s) _ _ _ t k (λ address. resubmit_by-Keeps _ row request s t k))

    resubmit_rows-Keeps :
        (rows : List TransactionData) (request : ResubmitRequest) (s t : State b)
        → Keeps b s t
        → Keeps b s (resubmit_rows b managers to_hex rows request t).1
    resubmit_rows-Keeps [] request s t k = k
    resubmit_rows-Keeps (row ∷ []) request s t k =
        let kept = resubmit_row-Keeps row request s t k in
        try_cases (Keeps b s) _ _ t kept (λ e h. h)
    resubmit_rows-Keeps (row ∷ other ∷ rows) request s t k = k

    -- A resubmission is recorded nowhere: whatever comes of it, the rows of the database, the messages
    -- of both queues, and the transactions that are waited for are those from before.
    pub transaction_resubmit-leaves_rows :
        (collection : CollectionLaws b.collection) (request : ResubmitRequest) (s : State b)
        → let t = (transaction_resubmit b managers to_hex request s).1 in
          (collection.rows t.database ≡ collection.rows s.database)
          × (t.transaction_queue ≡ s.transaction_queue)
          × (t.retry_transaction_queue ≡ s.retry_transaction_queue)
          × (t.waiting_for ≡ s.waiting_for)
    unfolding transaction_resubmit get_by_transaction_id ◌>>=◌
    transaction_resubmit-leaves_rows collection request s =
        let id = by_id request.transaction_id in
        let found = collection.find_latest-rows id s.database in
        let read = record s { database = (b.collection.find_latest id s.database).1 } in
        let k =
          resubmit_rows-Keeps (latest_first id (collection.rows s.database)) request read read
            (refl, refl, refl, refl, refl) in
        rw found.0 (ap collection.rows k.2 ∙ found.1, k.0, k.1, k.3)
