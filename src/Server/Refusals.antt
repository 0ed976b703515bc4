-- ===== src/Server/Refusals.antt =====
-- Requests that are refused before they are relayed.
use relayer_node.Base.{
  ℕ, String, ◌≡◌, refl, Option, none, some, List, [], ◌∷◌, Option-cases, inl, inr,
}
use relayer_node.Exec.{returned, ◌>>=◌, bind_cases, try_cases, or_throw_cases}
use relayer_node.Types.{TransactionMethodType}
use relayer_node.Backend.{Backend}
use relayer_node.TransactionService.Keeps.{Keeps}
use relayer_node.Consumers.{UserOperation, EntryPoint}
use relayer_node.Simulation.Untouched.{simulate_scw-Keeps, simulate_aa-Keeps}
use relayer_node.Server.{RelayRequest, text, ApiError, Api, ApiState, refusal}
use relayer_node.Server.Schemas.{schema_of}
use relayer_node.Server.Validation.{message_of, validate_method, after_validation}
use relayer_node.Server.Simulated.{
  fails, find_in, with_entry_point, simulate_scw_transaction, simulate_aa_transaction,
  simulate_method,
}
use relayer_node.Server.Relay.{post_relay, post_method, simulate_and_handle}

module _ (b : Backend) (api : Api) (s : ApiState b api) where
  -- The queues, the ids, and what Keeps tells of the backend: the database, among others.
  abbrev pub ApiKeeps : ApiState b api → Type 0
  ApiKeeps t =
      (t.scw_queue ≡ s.scw_queue)
      × (t.aa_queue ≡ s.aa_queue)
      × (t.ids ≡ s.ids)
      × Keeps b s.backend t.backend

  simulate_scw_transaction-ApiKeeps :
      (request : RelayRequest) (t : ApiState b api)
      → ApiKeeps t
      → ApiKeeps (simulate_scw_transaction b api request t).1
  unfolding simulate_scw_transaction
  simulate_scw_transaction-ApiKeeps request t k =
      try_cases ApiKeeps _ _ t
        (or_throw_cases ApiKeeps request.scw _ _ t k (λ p. or_throw_cases ApiKeeps _ _ _ t k (λ _.
          let simulated = simulate_scw-Keeps b api.simulators s.backend _ _ k.3 in
          bind_cases ApiKeeps _ _ t (k.0, k.1, k.2, simulated) (λ r. (k.0, k.1, k.2, simulated)))))
        (λ e h. h)

  with_entry_point-ApiKeeps :
      (e : Option EntryPoint) (op : Option UserOperation) (t : ApiState b api)
      → ApiKeeps t
      → ApiKeeps (with_entry_point b api e op t).1
  with_entry_point-ApiKeeps none op t k = k
  with_entry_point-ApiKeeps (some e) op t k = or_throw_cases ApiKeeps _ _ _ t k (λ _.
      let simulated = simulate_aa-Keeps b api.simulators s.backend e.address op _ k.3 in
      bind_cases ApiKeeps _ _ t (k.0, k.1, k.2, simulated) (λ r. (k.0, k.1, k.2, simulated)))

  find_in-ApiKeeps :
      (address : Option String) (es : List EntryPoint) (t : ApiState b api)
      → ApiKeeps t
      → ApiKeeps (find_in b api address es t).1
  find_in-ApiKeeps address [] t k = k
  find_in-ApiKeeps none (e ∷ es) t k = k
  find_in-ApiKeeps (some address) (e ∷ es) t k = k

  simulate_aa_transaction-ApiKeeps :
      (request : RelayRequest) (t : ApiState b api)
      → ApiKeeps t
      → ApiKeeps (simulate_aa_transaction b api request t).1
  unfolding simulate_aa_transaction
  simulate_aa_transaction-ApiKeeps request t k =
      try_cases ApiKeeps _ _ t
        (or_throw_cases ApiKeeps request.chain_id _ _ t k (λ c.
          or_throw_cases ApiKeeps _ _ _ t k (λ _.
            let found = find_in-ApiKeeps request.entry_point_address api.entry_points t k in
            bind_cases ApiKeeps _ _ t found
              (λ e. with_entry_point-ApiKeeps e request.user_op _ found))))
        (λ e h. h)

  pub simulate_method-ApiKeeps :
      (method : Option TransactionMethodType) (request : RelayRequest) (t : ApiState b api)
      → ApiKeeps t
      → ApiKeeps (simulate_method b api method request t).1
  unfolding simulate_method
  simulate_method-ApiKeeps (some TransactionMethodType.aa) request t k =
      let kept = simulate_aa_transaction-ApiKeeps request t k in
      bind_cases ApiKeeps _ _ t kept (λ v. kept)
  simulate_method-ApiKeeps (some TransactionMethodType.scw) request t k =
      let kept = simulate_scw_transaction-ApiKeeps request t k in
      bind_cases ApiKeeps _ _ t kept (λ v. kept)
  simulate_method-ApiKeeps (some TransactionMethodType.cross_chain) request t k = k
  simulate_method-ApiKeeps none request t k = k

  pub ApiKeeps-refl : ApiKeeps s
  ApiKeeps-refl = (refl, refl, refl, (refl, refl, refl, refl, refl))

  -- A request that is valid, and whose simulation fails, is answered with the code and error of the
  -- simulation; no id is made, no message is queued and no row is saved.
  pub post_relay-of_failure :
      (request : RelayRequest) (code : ℕ) (error : ApiError)
      → validate_method api request.method request ≡ none
      → (simulate_method b api request.method request s).0 ≡ returned (some (fails code error))
      → ((post_relay b api request s).0 ≡ returned (refusal code error))
        × ApiKeeps (post_relay b api request s).1
  unfolding post_relay post_method simulate_and_handle ◌>>=◌
  post_relay-of_failure request code error valid failing =
      rw (valid, failing) (refl, simulate_method-ApiKeeps request.method request s ApiKeeps-refl)

module _ (b : Backend) (api : Api) (request : RelayRequest) (s : ApiState b api) where
  cross_chain-refused :
      (method : Option TransactionMethodType)
      → method ≡ some TransactionMethodType.cross_chain
      → (error : ApiError) × (post_method b api method request s
          ≡ (returned (refusal 400 error), s))
  unfolding post_method simulate_and_handle validate_method after_validation simulate_method ◌>>=◌
  cross_chain-refused method h =
      elim (Option-cases (api.validate (schema_of TransactionMethodType.cross_chain) request)) [
        | inl e ↦ (text "Response not received from simulation service", rw (h, e) refl)
        | inr (found, e) ↦ (text (message_of found.details found.message), rw (h, e) refl)
      ]

  -- A request for a transaction across chains has a schema of its own, and is refused with code 400
  -- whatever is in it, valid or not: nothing is simulated, queued or saved.
  post_relay-refuses_cross_chain :
      request.method ≡ some TransactionMethodType.cross_chain
      → (error : ApiError) × (post_relay b api request s ≡ (returned (refusal 400 error), s))
  unfolding post_relay
  post_relay-refuses_cross_chain h = cross_chain-refused request.method h
