-- ===== src/Status.antt =====
-- common/status/StatusService.ts: what the status page tells of the cache, the database, the
-- networks, the token prices and the relayers. The time of an answer is given as a text.
pub mod Networks
pub mod Relayers
use relayer_node.Base.{
  ℕ, String, Bool, true, false, Option, none, some, List, [], ◌∷◌, ◌++◌, map, str_eq,
}
use relayer_node.Js.Dict.{Dict, lookup, keys}
use relayer_node.Js.Number.{round_to_double}
use relayer_node.Exec.{
  Exec, Result, returned, thrown, waiting, ◌>>=◌, ◌>>◌, pure, try_catch, or_throw,
}
use relayer_node.Cache.{CacheService}
use relayer_node.Network.{NetworkService}
use relayer_node.RelayerQueue
use relayer_node.RelayerQueue.{RelayerMetaData}
use relayer_node.RelayerManager.State.{RelayerManager}

-- RedisStatusResponseType, MongoStatusResponseType, and a network's entry
pub record ServiceStatus : Type 0 where
  pub active : Bool
  pub last_updated : String

-- TokenPriceStatusResponseType: `token_price` is the table that the text stands for.
pub record TokenPriceStatus (P : Type 0) : Type 0 where
  pub active : Bool
  pub token_price : Option P
  pub last_updated : String

pub data RelayerActivity : Type 0 where
  active processing : RelayerActivity

-- An entry of the relayers' list.
pub record RelayerStatus : Type 0 where
  pub address : String
  pub balance : ℕ
  pub nonce : ℕ
  pub status : RelayerActivity
  pub last_updated : String

-- A network service with its state.
pub record ServedNetwork : Type 1 where
  pub service : NetworkService
  pub net : service.Net

-- getTokenPriceKey
abbrev pub get_token_price_key : String
get_token_price_key = "NETWORK_PRICE_DATA"

module _ (last_updated : String) where
  abbrev pub status_with : Bool → ServiceStatus
  status_with is_active = record { active = is_active; last_updated = last_updated }

  unfoldable pub check_redis : (cache : CacheService) → Exec cache.Cache ServiceStatus
  check_redis cache =
      try_catch
        (do
          cache.set "health" "ok"
          result ← cache.get "health"
          pure (status_with (str_eq result "ok")))
        (λ _. pure (status_with false))

  -- `is_connected` is dbInstance.isConnected.
  unfoldable pub check_mongo : {D : Type 0} → Exec D Bool → Exec D ServiceStatus
  check_mongo is_connected =
      try_catch (do connected ← is_connected; pure (status_with connected))
        (λ _. pure (status_with false))

  -- parseInt(balance._hex, 16) is the double nearest to the balance.
  abbrev pub relayer_status : String → RelayerActivity → RelayerMetaData → RelayerStatus
  relayer_status relayer_address activity relayer = record {
    address = relayer_address;
    balance = round_to_double relayer.balance;
    nonce = relayer.nonce;
    status = activity;
    last_updated = last_updated;
  }

  abbrev pub processing_entry : String → Option RelayerMetaData → List RelayerStatus
  processing_entry relayer_address none = []
  processing_entry relayer_address (some relayer) =
      relayer_status relayer_address processing relayer ∷ []

  abbrev pub entry_of :
      String → Option RelayerMetaData → Option RelayerMetaData → List RelayerStatus
  entry_of relayer_address none in_process = processing_entry relayer_address in_process
  entry_of relayer_address (some relayer) in_process =
      relayer_status relayer_address active relayer ∷ []

  -- The loop over the addresses of a manager's relayerMap.
  unfoldable pub list_relayers : RelayerManager → List String → List RelayerStatus
  list_relayers m [] = []
  list_relayers m (relayer_address ∷ relayer_addresses) =
      entry_of relayer_address (RelayerQueue.get m.relayer_queue relayer_address)
        (lookup relayer_address m.transaction_processing_relayer_map)
      ++ list_relayers m relayer_addresses

  unfoldable pub check_manager : RelayerManager → List RelayerStatus
  check_manager m = list_relayers m (keys m.relayer_map)

  -- evmRelayerManagerMap: the managers by their names and chains.
  unfoldable pub check_relayer_manager :
      Dict (List (ℕ × RelayerManager)) → Dict (List (ℕ × List RelayerStatus))
  check_relayer_manager = map (λ e. (e.0, map (λ f. (f.0, check_manager f.1)) e.1))

  -- One round of the loop: the balance of the zero address is asked for.
  unfoldable pub check_network :
      (zero_address : String) (network : NetworkService) → Exec network.Net ServiceStatus
  check_network zero_address network =
      try_catch (do network.fetch_balance zero_address; pure (status_with true))
        (λ _. pure (status_with false))

  abbrev pub NetworkStatuses : Type 1
  NetworkStatuses = Result (List (ℕ × ServiceStatus)) × List (ℕ × ServedNetwork)

  abbrev add_status : ℕ × ServiceStatus → ℕ × ServedNetwork → NetworkStatuses → NetworkStatuses
  add_status status network (returned statuses, networks) =
      (returned (status ∷ statuses), network ∷ networks)
  add_status status network (thrown e, networks) = (thrown e, network ∷ networks)
  add_status status network (waiting, networks) = (waiting, network ∷ networks)

  abbrev pub after_network :
      ℕ
      → Result ServiceStatus
      → ServedNetwork
      → (rest : List (ℕ × ServedNetwork)) → NetworkStatuses
      → NetworkStatuses
  after_network id (returned status) network rest statuses =
      add_status (id, status) (id, network) statuses
  after_network id (thrown e) network rest statuses = (thrown e, (id, network) ∷ rest)
  after_network id waiting network rest statuses = (waiting, (id, network) ∷ rest)

  unfoldable pub check_network_service :
      (zero_address : String) → List (ℕ × ServedNetwork) → NetworkStatuses
  check_network_service zero_address [] = (returned [], [])
  check_network_service zero_address ((id, n) ∷ networks) =
      let (status, net) = check_network zero_address n.service n.net in
      after_network id status (record { service = n.service; net = net }) networks
        (check_network_service zero_address networks)

  -- The cache gives a text, never null: JSON.parse throws on the empty text.
  unfoldable pub check_token_price :
      {P : Type 0} (parse : String → Option P) (cache : CacheService)
      → Exec cache.Cache (TokenPriceStatus P)
  check_token_price parse cache =
      try_catch
        (do
          result ← cache.get get_token_price_key
          price ← or_throw (parse result) "Unexpected token in JSON"
          pure (record { active = true; token_price = some price; last_updated = last_updated }))
        (λ _. pure (record { active = false; token_price = none; last_updated = last_updated }))
