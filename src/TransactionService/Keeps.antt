-- ===== src/TransactionService/Keeps.antt =====
-- What building a transaction leaves alone: the queues, the database and the waits.
use relayer_node.Base.{String, ◌≡◌, Bool, true, false, inl, inr, Bool-cases}
use relayer_node.Exec.{bind_cases, or_throw_cases}
use relayer_node.Types.{
  NetworkBasedGasPrice, legacy, eip1559, EvmRawTransaction, Account, GasPriceType,
}
use relayer_node.Backend.{Backend, State}
use relayer_node.NonceManager.{get_nonce, get_and_set_nonce_from_network, nonce_cached, nonce_if}
use relayer_node.GasPrice.{
  includes_chain, get_gas_price, get_pair, get_legacy, get_gas_price_for_simulation,
  pair_or_network, text_or_network, get_max_fee_gas_price, get_max_priority_fee_gas_price,
}
use relayer_node.TransactionService.{
  TransactionDataType, create_transaction, with_price, hexlify_price,
}

module _ (b : Backend) where
  -- What building and executing a transaction leave alone.
  abbrev pub Keeps : State b → State b → Type 0
  Keeps s t =
      (t.transaction_queue ≡ s.transaction_queue)
      × (t.retry_transaction_queue ≡ s.retry_transaction_queue)
      × (t.database ≡ s.database)
      × (t.waiting_for ≡ s.waiting_for)
      × (t.now ≡ s.now)

  get_and_set-Keeps :
      (address : String) (pending : Bool) (s t : State b)
      → Keeps s t
      → Keeps s (get_and_set_nonce_from_network b address pending t).1
  unfolding get_and_set_nonce_from_network
  get_and_set-Keeps address pending s t k =
      bind_cases (Keeps s) _ _ t k (λ n. bind_cases (Keeps s) _ _ _ k (λ _. k))

  nonce_if-Keeps :
      (used : Bool) (address : String) (pending : Bool) (s t : State b)
      → Keeps s t
      → Keeps s (nonce_if b used address pending t).1
  nonce_if-Keeps true address pending s t k = get_and_set-Keeps address pending s t k
  nonce_if-Keeps false address pending s t k = get_and_set-Keeps address pending s t k

  nonce_cached-Keeps :
      (undefined : Bool) (nonce address : String) (pending : Bool) (s t : State b)
      → Keeps s t
      → Keeps s (nonce_cached b undefined nonce address pending t).1
  nonce_cached-Keeps true nonce address pending s t k = get_and_set-Keeps address pending s t k
  nonce_cached-Keeps false nonce address pending s t k =
      bind_cases (Keeps s) _ _ t k (λ used. nonce_if-Keeps _ address pending s _ k)

  get_nonce-Keeps :
      (address : String) (pending : Bool) (s t : State b)
      → Keeps s t
      → Keeps s (get_nonce b address pending t).1
  unfolding get_nonce
  get_nonce-Keeps address pending s t k =
      bind_cases (Keeps s) _ _ t k (λ nonce. nonce_cached-Keeps _ nonce address pending s _ k)

  pair_or_network-Keeps :
      (missing : Bool) (fee priority : String) (s t : State b)
      → Keeps s t
      → Keeps s (pair_or_network b missing fee priority t).1
  pair_or_network-Keeps true fee priority s t k = k
  pair_or_network-Keeps false fee priority s t k = k

  text_or_network-Keeps :
      (missing : Bool) (price : String) (s t : State b)
      → Keeps s t
      → Keeps s (text_or_network b missing price t).1
  text_or_network-Keeps true price s t k = k
  text_or_network-Keeps false price s t k = k

  get_pair-Keeps : (type : GasPriceType) (s t : State b) → Keeps s t → Keeps s (get_pair b type t).1
  unfolding get_pair get_max_fee_gas_price get_max_priority_fee_gas_price
  get_pair-Keeps type s t k =
      bind_cases (Keeps s) _ _ t k (λ fee.
        bind_cases (Keeps s) _ _ _ k (λ priority. pair_or_network-Keeps _ fee priority s _ k))

  pub get_gas_price_for_simulation-Keeps :
      (type : GasPriceType) (s t : State b)
      → Keeps s t
      → Keeps s (get_gas_price_for_simulation b type t).1
  unfolding get_gas_price_for_simulation
  get_gas_price_for_simulation-Keeps type s t k =
      bind_cases (Keeps s) _ _ t k (λ price. text_or_network-Keeps _ price s _ k)

  get_legacy-Keeps :
      (type : GasPriceType) (s t : State b) → Keeps s t → Keeps s (get_legacy b type t).1
  unfolding get_legacy
  get_legacy-Keeps type s t k =
      let priced = get_gas_price_for_simulation-Keeps type s t k in
      bind_cases (Keeps s) _ _ t priced (λ price. priced)

  pub get_gas_price-Keeps :
      (type : GasPriceType) (s t : State b) → Keeps s t → Keeps s (get_gas_price b type t).1
  unfolding get_gas_price
  get_gas_price-Keeps type s t k =
      elim (Bool-cases (includes_chain b.eip1559_supported_networks b.chain_id)) [
        | inl e ↦ rw e (get_pair-Keeps type s t k)
        | inr e ↦ rw e (get_legacy-Keeps type s t k)
      ]

  with_price-Keeps :
      (raw : EvmRawTransaction) (price : NetworkBasedGasPrice) (s t : State b)
      → Keeps s t
      → Keeps s (with_price b raw price t).1
  unfolding hexlify_price
  with_price-Keeps raw (legacy price) s t k = or_throw_cases (Keeps s) _ _ _ t k (λ _. k)
  with_price-Keeps raw (eip1559 priority fee) s t k =
      or_throw_cases (Keeps s) _ _ _ t k (λ _. or_throw_cases (Keeps s) _ _ _ t k (λ _. k))

  pub create_transaction-Keeps :
      (d : TransactionDataType) (account : Account) (s t : State b)
      → Keeps s t
      → Keeps s (create_transaction b d account t).1
  unfolding create_transaction
  create_transaction-Keeps d account s t k =
      let asked = get_nonce-Keeps account.public_key false s t k in
      bind_cases (Keeps s) _ _ t asked (λ nonce.
        let priced = get_gas_price-Keeps _ s _ asked in
        bind_cases (Keeps s) _ _ _ priced (λ price. with_price-Keeps _ price s _ priced))
