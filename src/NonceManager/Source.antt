-- ===== src/NonceManager/Source.antt =====
-- Where the nonce of getNonce comes from.
use relayer_node.Base.{ℕ, String, ◌≡◌, refl, Bool, true, false}
use relayer_node.Js.Text.{parse_int}
use relayer_node.Exec.{Result, returned, thrown, waiting, Exec, ◌>>=◌, continue, pure}
use relayer_node.Types.{Fetched}
use relayer_node.Cache.Laws.{CacheLaws}
use relayer_node.Backend.{Backend, State, on_cache}
use relayer_node.NonceManager.{
  nonce_to_string, number_to_string, get_account_nonce_key, get_used_account_nonce_key,
  get_and_set_nonce_from_network, nonce_if, nonce_cached, get_nonce,
}

module _ (b : Backend) (laws : CacheLaws b.cache) where
  -- The nonce, and the chain's state after it, are those of one call of the network service.
  abbrev pub IsFromNetwork : String → Bool → Exec (State b) (Fetched ℕ) → State b → Type 0
  IsFromNetwork address pending_count m s =
      let asked = b.network.fetch_nonce address pending_count s.network in
      ((m s).0 ≡ asked.0) × ((m s).1.network ≡ asked.1)

  write_then_give :
      (address : String) (r : Result (Fetched ℕ)) (s : State b)
      → let m = continue r (λ nonce.
        on_cache (b.cache.set (get_account_nonce_key b address) (nonce_to_string nonce))
        >>= (λ _. pure nonce)) in
        ((m s).0 ≡ r) × ((m s).1.network ≡ s.network)
  unfolding ◌>>=◌
  write_then_give address (returned nonce) s =
      rw ((laws.set-view (get_account_nonce_key b address) (nonce_to_string nonce) s.cache).0)
        (refl, refl)
  write_then_give address (thrown e) s = (refl, refl)
  write_then_give address waiting s = (refl, refl)

  get_and_set-IsFromNetwork :
      (address : String) (pending_count : Bool) (s : State b)
      → IsFromNetwork address pending_count
          (get_and_set_nonce_from_network b address pending_count)
          s
  unfolding get_and_set_nonce_from_network ◌>>=◌
  get_and_set-IsFromNetwork address pending_count s = write_then_give address _ _

  nonce_if-IsFromNetwork :
      (used : Bool) (address : String) (pending_count : Bool) (s : State b)
      → IsFromNetwork address pending_count (nonce_if b used address pending_count) s
  nonce_if-IsFromNetwork true address pending_count s =
      get_and_set-IsFromNetwork address pending_count s
  nonce_if-IsFromNetwork false address pending_count s =
      get_and_set-IsFromNetwork address pending_count s

  nonce_cached-IsFromNetwork :
      (undefined : Bool) (nonce address : String) (pending_count : Bool) (s : State b)
      → IsFromNetwork address pending_count (nonce_cached b undefined nonce address pending_count) s
  unfolding ◌>>=◌
  nonce_cached-IsFromNetwork true nonce address pending_count s =
      get_and_set-IsFromNetwork address pending_count s
  nonce_cached-IsFromNetwork false nonce address pending_count s =
      let key = get_used_account_nonce_key b address (number_to_string (parse_int nonce)) in
      rw ((laws.get-view key s.cache).0) (nonce_if-IsFromNetwork _ address pending_count _)

  -- Whatever is in the cache, getNonce asks the network service, once, and gives its answer: the
  -- nonce that is cached, incremented or marked as used plays no part.
  get_nonce-IsFromNetwork :
      (address : String) (pending_count : Bool) (s : State b)
      → IsFromNetwork address pending_count (get_nonce b address pending_count) s
  unfolding get_nonce ◌>>=◌
  get_nonce-IsFromNetwork address pending_count s =
      rw ((laws.get-view (get_account_nonce_key b address) s.cache).0)
        (nonce_cached-IsFromNetwork _ _ address pending_count _)
