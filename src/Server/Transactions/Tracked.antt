-- ===== src/Server/Transactions/Tracked.antt =====
-- What is shown of a transaction once it is sent, and once it is sent again.
use relayer_node.Base.{
  ℕ, suc, String, false, ◌≡◌, refl, ap, ◌∙◌, none, some, List, [], ◌∷◌, ◌++◌, length, length-append,
  arith, inl, inr, Bool-cases,
}
use relayer_node.TransactionDao.{
  TransactionData, CollectionLaws, Filter, satisfies, set_fields, update_first, latest_first,
}
use relayer_node.Js.Text.{parse_int, to_string}
use relayer_node.Exec.{returned}
use relayer_node.Types.{
  TransactionType, TransactionStatus, fetched, EvmRawTransaction, Account, TransactionResponse,
  RetryTransactionQueueData,
}
use relayer_node.Cache.Laws.{CacheLaws}
use relayer_node.Backend.{NotifyParams, Backend, State, QueueLaws, get_retry_transaction_count_key}
use relayer_node.GasPrice.Bumping.{get_bumped_up_gas_price}
use relayer_node.TransactionListener.{pending_update, dropped_update, new_row}
use relayer_node.TransactionService.{TransactionDataType, is_more, create_transaction}
use relayer_node.TransactionService.SendTransaction.{notify_params, send_transaction}
use relayer_node.TransactionService.Send.{retries_of, counted}
use relayer_node.TransactionService.Outcome.{send_transaction-of_acceptance}
use relayer_node.TransactionService.Resubmit.{past_price, retry_transaction}
use relayer_node.TransactionService.Retry.{retry_params, recounted, retry_transaction-of_acceptance}
use relayer_node.Server.{status_of}
use relayer_node.Server.Transactions.{Databases, view_of, status_response, transaction_status}
use relayer_node.Server.Transactions.Pending.{
  IsOfChain, by_id, transaction_status-of_rows, transaction_status-of_last,
}

-- A list that ends in `a` and is `b` alone.
single : {A : Type 0} (l : List A) (a b : A) → l ++ a ∷ [] ≡ b ∷ [] → (l ≡ []) × (a ≡ b)
single [] a b h = (refl, cc)
single (x ∷ []) a b h = absurd cc
single (x ∷ y ∷ l) a b h = absurd cc

-- The update of a row leaves alone whether the filter takes it.
abbrev Leaves : Filter → TransactionData → Type 0
Leaves f u = (row : TransactionData) → satisfies f (set_fields u row) ≡ satisfies f row

latest_first-update_single :
    (f : Filter) (u row : TransactionData) (rows : List TransactionData)
    → Leaves f u
    → latest_first f rows ≡ row ∷ []
    → latest_first f (update_first f u rows) ≡ set_fields u row ∷ []
unfolding latest_first update_first
latest_first-update_single f u row [] same h = absurd cc
latest_first-update_single f u row (first ∷ rows) same h = elim (Bool-cases (satisfies f first)) [
  | inl e ↦
      let (empty, is_row) = single (latest_first f rows) first row (rw (e, latest_first) at h) in
      rw (e, update_first, latest_first, same first, e)
        (ap (λ l. l ++ set_fields u first ∷ []) empty ∙ ap (λ r. set_fields u r ∷ []) is_row)
  | inr e ↦
      rw (e, update_first, latest_first, e)
        (latest_first-update_single f u row rows same (rw (e, latest_first) at h))
]

length-latest_first :
    (f g : Filter) (u : TransactionData) (rows : List TransactionData)
    → Leaves f u
    → length (latest_first f (update_first g u rows)) ≡ length (latest_first f rows)
unfolding latest_first update_first
length-latest_first f g u [] same = refl
length-latest_first f g u (first ∷ rows) same = elim (Bool-cases (satisfies g first)) [
  | inl e ↦ elim (Bool-cases (satisfies f first)) [
    | inl k ↦
        rw (e, same first, k)
          (omega (
            arith,
            length-append (latest_first f rows) (set_fields u first ∷ []),
            length-append (latest_first f rows) (first ∷ []),
          ))
    | inr k ↦ rw (e, same first, k) refl
  ]
  | inr e ↦ elim (Bool-cases (satisfies f first)) [
    | inl k ↦
        rw (e, k)
          (omega (
            arith,
            length-latest_first f g u rows same,
            length-append (latest_first f rows) (first ∷ []),
            length-append (latest_first f (update_first g u rows)) (first ∷ []),
          ))
    | inr k ↦ rw (e, k) (length-latest_first f g u rows same)
  ]
]

-- The row of a transaction that replaces another, where that one has a row.
shows_previous :
    (chain_id previous : String) (chain now n : ℕ) (params : NotifyParams)
    (response : TransactionResponse) (earlier : List TransactionData)
    → length earlier ≡ suc n
    → view_of chain_id (new_row chain params response previous now) earlier ≡ record {
      chain_id = parse_int chain_id;
      transaction_id = some params.transaction_id;
      status = some TransactionStatus.pending;
      transaction_hash = some response.hash;
      gas_price = response.gas_price;
      receipt = none;
      previous_transaction_hash = some previous;
    }
shows_previous chain_id previous chain now n params response [] h = absurd (omega (arith, h))
shows_previous chain_id previous chain now n params response (row ∷ rows) h = refl

module _ (b : Backend) (cache : CacheLaws b.cache) (events : QueueLaws b.transaction_queue)
    (retries : QueueLaws b.retry_transaction_queue) (table : CollectionLaws b.collection) where
  -- Once the node has taken a transaction that has one row, GET /status shows it as pending, with its
  -- hash and gas price and no earlier hash, to a client that asks for its chain, which the
  -- configuration supports.
  pub send_transaction-then_status :
      (d : TransactionDataType) (account : Account) (type : TransactionType) (name : String)
      (raw : EvmRawTransaction) (response : TransactionResponse) (network : b.network.Net)
      (s t : State b) (row : TransactionData) (price : ℕ) (databases : Databases)
      (chain_id : String)
      → is_more (retries_of b cache d s) (b.max_retry_count type) ≡ false
      → create_transaction b d account (counted b cache d s) ≡ (returned raw, t)
      → b.network.submit raw (some account) t.network ≡ (returned (fetched response), network)
      → latest_first (by_id d.transaction_id) (table.rows s.database) ≡ row ∷ []
      → response.gas_price ≡ some price
      → IsOfChain b databases chain_id
      → (transaction_status b databases
          (record { chain_id = chain_id; transaction_id = d.transaction_id })
          (send_transaction b d account type name s).1).0
        ≡ returned (record {
          code = 200;
          body = status_of (record {
            chain_id = parse_int chain_id;
            transaction_id = row.transaction_id;
            status = some TransactionStatus.pending;
            transaction_hash = some response.hash;
            gas_price = some price;
            receipt = row.receipt;
            previous_transaction_hash = none;
          });
        })
  send_transaction-then_status d account type name raw response network s t row price databases
        chain_id below created taken one priced asked =
      let accepted =
        send_transaction-of_acceptance b cache events retries table d account type name raw response
          network s t below created taken in
      let f = by_id d.transaction_id in
      let params = record (notify_params b d account type name raw) {
        transaction_execution_response = some response;
      } in
      let u = pending_update params response s.now in
      let found =
        ap (latest_first f) accepted.3
        ∙ latest_first-update_single f u row (table.rows s.database) (λ r. refl) one in
      transaction_status-of_rows b table databases chain_id d.transaction_id _ asked
      ∙ ap (λ rows. returned (status_response chain_id rows)) found
      ∙ ap
          (λ g.
            returned (status_response chain_id (set_fields (record u { gas_price = g }) row ∷ [])))
          priced

  -- Once the node has taken a transaction again that has a row, with a bumped-up gas price, GET
  -- /status shows it as pending, with the new hash and price, and the hash that it replaces, to a
  -- client that asks for its chain, which the configuration supports.
  pub retry_transaction-then_status :
      (d : RetryTransactionQueueData) (account : Account) (type : TransactionType) (price : String)
      (response : TransactionResponse) (n : ℕ) (network : b.network.Net) (s : State b)
      (row : TransactionData) (earlier : List TransactionData) (databases : Databases)
      (chain_id : String)
      → cache.view s.cache (get_retry_transaction_count_key d.transaction_id b.chain_id)
        ≡ some (to_string n)
      → get_bumped_up_gas_price b
          (past_price b d.raw_transaction)
          b.bump_gas_price_multiplier
          (recounted b cache d s)
        ≡ (returned price, recounted b cache d s)
      → b.network.submit
          (record d.raw_transaction { gas_price = some price })
          (some account)
          s.network
        ≡ (returned (fetched response), network)
      → latest_first (by_id d.transaction_id) (table.rows s.database) ≡ row ∷ earlier
      → IsOfChain b databases chain_id
      → (transaction_status b databases
          (record { chain_id = chain_id; transaction_id = d.transaction_id })
          (retry_transaction b d (some account) type s).1).0
        ≡ returned (record {
          code = 200;
          body = status_of (record {
            chain_id = parse_int chain_id;
            transaction_id = some d.transaction_id;
            status = some TransactionStatus.pending;
            transaction_hash = some response.hash;
            gas_price = response.gas_price;
            receipt = none;
            previous_transaction_hash = some d.transaction_hash;
          });
        })
  retry_transaction-then_status d account type price response n network s row earlier databases
        chain_id count bumped taken has_row asked =
      let accepted =
        retry_transaction-of_acceptance b cache events retries table d account type price response n
          network s count bumped taken in
      let f = by_id d.transaction_id in
      let g : Filter = record {
        transaction_id = d.transaction_id;
        transaction_hash = some d.transaction_hash;
      } in
      let params = retry_params d account type price response in
      let rows = update_first g (dropped_update s.now) (table.rows s.database) in
      transaction_status-of_last b table databases chain_id d.transaction_id _ rows
        (new_row b.chain_id params response d.transaction_hash s.now) asked accepted.3 refl
      ∙ ap (λ view. returned (record { code = 200; body = status_of view }))
          (shows_previous chain_id d.transaction_hash b.chain_id s.now (length earlier) params
            response (latest_first f rows)
            (length-latest_first f g (dropped_update s.now) (table.rows s.database) (λ r. refl)
              ∙ ap length has_row))
