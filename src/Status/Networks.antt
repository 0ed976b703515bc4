-- ===== src/Status/Networks.antt =====
-- What the status page tells of the networks.
use relayer_node.Base.{ℕ, String, ◌≡◌, ◌≢◌, refl, true, false, List, [], ◌∷◌, map, All}
use relayer_node.Exec.{Result, returned, thrown, waiting, ◌>>=◌, pure, try_catch, continue, handle}
use relayer_node.Network.{Provider, Network, get_balance, evm_network_service, network_balance}
use relayer_node.Network.Errors.{settled, use_provider-settled}
use relayer_node.Status.{ServedNetwork, status_with, check_network, check_network_service}

-- An EVM network, and the address whose balance is asked for.
pub record EvmNetwork : Type 1 where
  pub provider : Provider
  pub net : Network provider.Chain

abbrev pub served : EvmNetwork → ServedNetwork
served n = record { service = evm_network_service n.provider; net = n.net }

-- What the current node does with the question for the balance.
abbrev pub balance_answer : String → EvmNetwork → Result ℕ
balance_answer zero_address n =
    (n.provider.call n.net.provider_url (get_balance zero_address) n.net.chain).0

abbrev pub Ends : String → EvmNetwork → Type 0
Ends zero_address n = balance_answer zero_address n ≢ waiting

module _ (last_updated : String) where
  settled_status :
      {S : Type 0} (r : Result ℕ) (s : S)
      → r ≢ waiting
      → (let t = continue (settled r) (λ _. pure (status_with last_updated true)) s in
          handle t.0 (λ _. pure (status_with last_updated false)) t.1).0
        ≡ returned (status_with last_updated true)
  settled_status (returned n) s h = refl
  settled_status (thrown e) s h = refl
  settled_status waiting s h = absurd (h refl)

  check_network-active :
      (zero_address : String) (n : EvmNetwork)
      → Ends zero_address n
      → (check_network last_updated zero_address (evm_network_service n.provider) n.net).0
        ≡ returned (status_with last_updated true)
  unfolding check_network network_balance try_catch ◌>>=◌
  check_network-active zero_address n h =
      rw (use_provider-settled n.provider (get_balance zero_address) n.net)
        (settled_status (balance_answer zero_address n) _ h)

  -- Every network of EVM is reported as active, in the order of the map, whatever its node answers
  -- or throws, if each node answers or throws at all.
  pub check_network_service-active :
      (zero_address : String) (networks : List (ℕ × EvmNetwork))
      → All (λ e. Ends zero_address e.1) networks
      → (check_network_service last_updated zero_address (map (λ e. (e.0, served e.1)) networks)).0
        ≡ returned (map (λ e. (e.0, status_with last_updated true)) networks)
  unfolding check_network_service
  check_network_service-active zero_address [] h = refl
  check_network_service-active zero_address ((id, n) ∷ networks) h =
      rw
        (
          check_network-active zero_address n h.0,
          check_network_service-active zero_address networks h.1,
        )
        refl
