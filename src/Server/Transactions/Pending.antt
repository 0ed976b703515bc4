-- ===== src/Server/Transactions/Pending.antt =====
-- A transaction that was just relayed is found by its id.
use relayer_node.Base.{
  ℕ, pos, String, true, ◌==◌, arith, ◌&&◌, ◌≡◌, refl, ap, ◌∙◌, none, some, List, [], ◌∷◌, ◌++◌,
  str_eq_refl,
}
use relayer_node.Js.Text.{parse_int}
use relayer_node.Exec.{returned, ◌>>=◌}
use relayer_node.Types.{TransactionStatus}
use relayer_node.TransactionDao.{
  TransactionData, CollectionLaws, get_by_transaction_id, latest_first, latest_first-append, Filter,
  agrees,
}
use relayer_node.Backend.{Backend, State}
use relayer_node.Server.{TransactionView}
use relayer_node.Server.Simulated.{of_chain}
use relayer_node.Server.Transactions.{
  Databases, includes_network, status_response, rows_on, transaction_status,
}

abbrev pub by_id : String → Filter
by_id id = record { transaction_id = id; transaction_hash = none }

-- The chain id is a text for the number of the services' chain, which the configuration supports.
abbrev pub IsOfChain : Backend → Databases → String → Type 0
IsOfChain b d chain_id =
    (parse_int chain_id ≡ some (pos b.chain_id))
    × (includes_network d.supported_networks b.chain_id ≡ true)

same_network : (n : ℕ) → (n == n) ≡ true
same_network n = ground arith

module _ (b : Backend) (collection : CollectionLaws b.collection) where
  -- What is asked for is answered from the rows with the id, the latest first.
  pub transaction_status-of_rows :
      (d : Databases) (chain_id id : String) (s : State b)
      → IsOfChain b d chain_id
      → (transaction_status b d (record { chain_id = chain_id; transaction_id = id }) s).0
        ≡ returned (status_response chain_id (latest_first (by_id id) (collection.rows s.database)))
  unfolding transaction_status rows_on get_by_transaction_id ◌>>=◌
  transaction_status-of_rows d chain_id id s (named, supported) =
      rw
        (
          named,
          supported,
          same_network b.chain_id,
          (collection.find_latest-rows (by_id id) s.database).0,
        )
        refl

  -- A row that was saved last is the one that is shown.
  pub transaction_status-of_last :
      (d : Databases) (chain_id id : String) (s : State b) (rows : List TransactionData)
      (row : TransactionData)
      → IsOfChain b d chain_id
      → collection.rows s.database ≡ rows ++ row ∷ []
      → row.transaction_id ≡ some id
      → (transaction_status b d (record { chain_id = chain_id; transaction_id = id }) s).0
        ≡ returned (status_response chain_id (row ∷ latest_first (by_id id) rows))
  transaction_status-of_last d chain_id id s rows row of_chain saved named =
      transaction_status-of_rows d chain_id id s of_chain
      ∙ ap (λ r. returned (status_response chain_id r))
          (ap (latest_first (by_id id)) saved
            ∙ latest_first-append (by_id id) rows row
                (ap (λ o. agrees id o && true) named ∙ rw (str_eq_refl id) refl))

  -- What is shown of a row that was just saved, whatever rows were there before.
  abbrev pub pending_view : (chain_id id : String) → TransactionView
  pending_view chain_id id = record {
    chain_id = parse_int chain_id;
    transaction_id = some id;
    status = some TransactionStatus.pending;
    transaction_hash = none;
    gas_price = none;
    receipt = none;
    previous_transaction_hash = none;
  }
