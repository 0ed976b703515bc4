-- ===== src/Network/Errors.antt =====
-- What the network service does with the errors of the RPC nodes.
use relayer_node.Base.{◌≡◌, refl}
use relayer_node.Exec.{
  JsError, Result, returned, thrown, waiting, ◌>>=◌, pure, try_catch, continue, handle,
}
use relayer_node.Types.{Fetched, fetched, failed_with}
use relayer_node.Network.{
  RpcRequest, Answer, Provider, Network, wrapped, is_timeout, on_error, use_provider,
}

-- An outcome, with an exception turned into a value: a new error with the text of the first.
abbrev pub settled {ℓ} : {A : Type ℓ} → Result A → Result (Fetched A)
settled (returned a) = returned (fetched a)
settled (thrown e) = returned (failed_with (wrapped e))
settled waiting = waiting

module _ (p : Provider) where
  on_error_lem :
      (request : RpcRequest) (e : JsError) (s : Network p.Chain)
      → on_error p request e s ≡ (returned (failed_with (wrapped e)), s)
  unfolding on_error is_timeout ◌>>=◌
  on_error_lem request e s = refl

  caught :
      (request : RpcRequest) (r : Result (Answer request)) (s : Network p.Chain)
      → (let t = continue r (λ answer. pure (fetched answer)) s in
          handle t.0 (on_error p request) t.1)
        ≡ (settled r, s)
  caught request (returned a) s = refl
  caught request (thrown e) s = on_error_lem request e s
  caught request waiting s = refl

  -- useProvider gives the answer of the current provider, or its error, in a new one, as a value: it never throws,
  -- and it never turns to a fallback URL.
  pub use_provider-settled :
      (request : RpcRequest) (s : Network p.Chain)
      → let answer = p.call s.provider_url request s.chain in
        use_provider p request s ≡ (settled answer.0, record s { chain = answer.1 })
  unfolding use_provider try_catch ◌>>=◌
  use_provider-settled request s = caught request (p.call s.provider_url request s.chain).0 _
