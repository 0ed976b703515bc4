-- ===== src/RelayerManager/Create.antt =====
-- createRelayers of EVMRelayerManager.
use relayer_node.Base.{
  ℕ, zero, suc, String, Bool, true, false, Option, none, some, List, [], ◌∷◌, ◌++◌, pos,
}
use relayer_node.Js.Text.{◌&◌, to_string, to_lower_case}
use relayer_node.Js.Dict.{insert}
use relayer_node.Exec.{Exec, ◌>>=◌, ◌>>◌, pure, gets, try_catch}
use relayer_node.Types.{Account}
use relayer_node.RelayerQueue
use relayer_node.RelayerManager.State.{
  RelayerManager, WalletKeys, Services, State, service, update, acquire_create, release_create,
  get_relayers_count,
}

abbrev pub account_of : WalletKeys → Account
account_of wallet = record {
  public_key = to_lower_case wallet.eth_address;
  private_key = wallet.private_key;
}

-- this.relayerMap[address] = relayer
abbrev pub add_account : Account → RelayerManager → RelayerManager
add_account relayer m = record m { relayer_map = insert relayer.public_key relayer m.relayer_map }

-- this.relayerQueue.push({ ... })
abbrev pub push_relayer : Account → ℕ → ℕ → RelayerManager → RelayerManager
push_relayer relayer nonce balance m = record m {
  relayer_queue = RelayerQueue.push m.relayer_queue (record {
    address = relayer.public_key;
    pending_count = pos 0;
    nonce = nonce;
    balance = balance;
  });
}

module _ (svc : Services) where
  open svc use {World, derive, get_balance, get_nonce}

  -- nodePath + relayerIndex
  unfoldable pub node_path : ℕ → String
  node_path relayer_index =
      "m/44'/60'/0'/" & to_string svc.node_path_index & "/" & to_string relayer_index

  -- The account of an index; `none` where the derivation throws.
  unfoldable pub account_at : String → ℕ → Option Account
  account_at seed relayer_index = elim (derive seed (node_path relayer_index)) [
    | none ↦ none
    | some wallet ↦ some (account_of wallet)
  ]

  -- The first loop, from an index on: the map with the new accounts, the accounts that were made,
  -- and whether the loop got to its end.
  unfoldable pub derive_relayers : ℕ → ℕ → RelayerManager → RelayerManager × List Account × Bool
  derive_relayers zero relayer_index m = (m, [], true)
  derive_relayers (suc n) relayer_index m = elim (account_at m.relayer_seed relayer_index) [
    | none ↦ (m, [], false)
    | some relayer ↦
        let (m', relayers, finished) =
          derive_relayers n (suc relayer_index) (add_account relayer m) in
        (m', relayer ∷ relayers, finished)
  ]

  -- A round of the second loop: the relayer's address in a list, or an empty list after an error.
  unfoldable pub enqueue_relayer : Account → Exec (State World) (List String)
  enqueue_relayer relayer =
      try_catch
        (do
          let relayer_address = to_lower_case relayer.public_key
          balance ← service (get_balance relayer_address)
          nonce ← service (get_nonce relayer_address)
          update (push_relayer relayer nonce balance)
          pure (relayer_address ∷ []))
        (λ _. pure [])

  unfoldable pub enqueue_relayers : List Account → Exec (State World) (List String)
  enqueue_relayers [] = pure []
  enqueue_relayers (relayer ∷ relayers) = do
    added ← enqueue_relayer relayer
    rest ← enqueue_relayers relayers
    pure (added ++ rest)

  -- Where the first loop throws, the second is skipped.
  unfoldable pub enqueue_if : Bool → List Account → Exec (State World) (List String)
  enqueue_if true relayers = enqueue_relayers relayers
  enqueue_if false relayers = pure []

  unfoldable pub create_relayers : ℕ → Exec (State World) (List String)
  create_relayers number_of_relayers = do
    acquire_create
    m ← gets (λ s. s.manager)
    let (m', relayers, finished) = derive_relayers number_of_relayers (get_relayers_count false m) m
    update (λ _. m')
    addresses ← enqueue_if finished relayers
    release_create
    pure addresses
