-- ===== src/NonceManager.antt =====
-- relayer/src/services/nonce-manager/EVMNonceManager.ts
pub mod Source
use relayer_node.Base.{
  ℕ, suc, String, Bool, true, false, not, Option, none, some, ℤ, pos, negsuc, str_eq,
}
use relayer_node.Js.Text.{◌&◌, to_string, parse_int}
use relayer_node.Exec.{JsError, Exec, returned, ◌>>=◌, ◌>>◌, pure}
use relayer_node.Types.{Fetched, fetched, failed_with}
use relayer_node.Backend.{Backend, State, on_cache, on_network}

-- A number in a text, NaN included.
abbrev pub int_to_string : ℤ → String
int_to_string (pos n) = to_string n
int_to_string (negsuc n) = "-" & to_string (suc n)

abbrev pub number_to_string : Option ℤ → String
number_to_string none = "NaN"
number_to_string (some z) = int_to_string z

-- toString() of what the network service gives
abbrev pub nonce_to_string : Fetched ℕ → String
nonce_to_string (fetched n) = to_string n
nonce_to_string (failed_with e) = "Error: " & e.message

module _ (b : Backend) where
  unfoldable pub get_account_nonce_key : String → String
  get_account_nonce_key address = "AccountNonce_" & address & "_" & to_string b.chain_id

  unfoldable pub get_used_account_nonce_key : String → String → String
  get_used_account_nonce_key address nonce =
      "UsedAccountNonce_" & address & "_" & nonce & "_" & to_string b.chain_id

  unfoldable pub get_and_set_nonce_from_network : String → Bool → Exec (State b) (Fetched ℕ)
  get_and_set_nonce_from_network address pending_count = do
    nonce_from_network ← on_network (b.network.fetch_nonce address pending_count)
    on_cache (b.cache.set (get_account_nonce_key address) (nonce_to_string nonce_from_network))
    pure nonce_from_network

  -- A text is a condition that holds unless it is empty.
  abbrev pub is_used : String → Bool
  is_used text = not (str_eq text "")

  abbrev pub nonce_if : Bool → String → Bool → Exec (State b) (Fetched ℕ)
  nonce_if true address pending_count = get_and_set_nonce_from_network address pending_count
  nonce_if false address pending_count = get_and_set_nonce_from_network address pending_count

  -- nonce !== null && nonce !== 'undefined': the cache service gives a text, never null.
  abbrev pub nonce_cached : Bool → String → String → Bool → Exec (State b) (Fetched ℕ)
  nonce_cached true nonce address pending_count =
      get_and_set_nonce_from_network address pending_count
  nonce_cached false nonce address pending_count = do
    used ←
        on_cache
          (b.cache.get (get_used_account_nonce_key address (number_to_string (parse_int nonce))))
    nonce_if (is_used used) address pending_count

  unfoldable pub get_nonce : String → Bool → Exec (State b) (Fetched ℕ)
  get_nonce address pending_count = do
    nonce ← on_cache (b.cache.get (get_account_nonce_key address))
    nonce_cached (str_eq nonce "undefined") nonce address pending_count

  unfoldable pub mark_used : String → ℕ → Exec (State b) (Unit {0})
  mark_used address nonce = do
    on_cache (b.cache.set (get_used_account_nonce_key address (to_string nonce)) "true")
    pure tt

  unfoldable pub increment_nonce : String → Exec (State b) Bool
  increment_nonce address = on_cache (b.cache.increment (get_account_nonce_key address) 1)
