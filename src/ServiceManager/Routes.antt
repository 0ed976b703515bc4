-- ===== src/ServiceManager/Routes.antt =====
-- Which types of transactions a chain serves once it is set up.
use relayer_node.Base.{
  String, ◌≡◌, refl, sym, subst, ap, ◌∙◌, Bool, true, false, ◌&&◌, ◌||◌, Option, none, some, List,
  [], ◌∷◌, arith,
}
use relayer_node.Exec.{
  Exec, returned, ◌>>=◌, bind_cases, gets_cases, returned_cases, or_throw, detach,
}
use relayer_node.Exec.Ends.{OnReturn, bind-OnReturn, or_throw-OnReturn}
use relayer_node.Types.{TransactionType, aa, scw, cross_chain, funding}
use relayer_node.Js.Dict.{lookup}
use relayer_node.Server.Transactions.{relayer_manager_name_of}
use relayer_node.RelayerManager.State.{RelayerManager, RelayerManagerOptions, Services}
use relayer_node.Queues.{Amqp}
use relayer_node.ServiceManager.{ChainConfig, Setup, is_type}
use relayer_node.ServiceManager.SetUp.{
  set_up_type, set_up_types, set_up_services, set_up_manager, set_up_managers, set_up_chain,
  before_setup, the_manager, on_manager,
}

-- The types that have a relay service.
abbrev pub has_service : TransactionType → Bool
has_service aa = true
has_service scw = true
has_service _ = false

unfoldable pub lists : TransactionType → List TransactionType → Bool
lists type [] = false
lists type (other ∷ types) = is_type other type || lists type types

is_type-served :
    (type other : TransactionType) (b : Bool)
    → has_service type ≡ true
    → is_type type other || b ≡ b || (has_service other && is_type type other)
is_type-served aa aa b h = ground arith
is_type-served aa scw b h = ground arith
is_type-served aa cross_chain b h = ground arith
is_type-served aa funding b h = ground arith
is_type-served scw aa b h = ground arith
is_type-served scw scw b h = ground arith
is_type-served scw cross_chain b h = ground arith
is_type-served scw funding b h = ground arith
is_type-served cross_chain other b h = absurd cc
is_type-served funding other b h = absurd cc

not_served :
    (type other : TransactionType)
    → has_service type ≡ false
    → has_service other && is_type type other ≡ false
not_served aa other h = absurd cc
not_served scw other h = absurd cc
not_served cross_chain aa h = refl
not_served cross_chain scw h = refl
not_served cross_chain cross_chain h = refl
not_served cross_chain funding h = refl
not_served funding aa h = refl
not_served funding scw h = refl
not_served funding cross_chain h = refl
not_served funding funding h = refl

module _ (svc : Services) (amqp : Amqp) where
  abbrev pub Routes : (TransactionType → Bool) → Setup svc amqp → Type 0
  Routes f s = (type : TransactionType) → s.route_transaction_to_relayer type ≡ f type

  abbrev with_one : Setup svc amqp → TransactionType → TransactionType → Bool
  with_one s type other =
      s.route_transaction_to_relayer other || (has_service other && is_type type other)

  set_up_services-Routes :
      (config : ChainConfig) (type : TransactionType) (s : Setup svc amqp)
      → OnReturn (Routes (with_one s type)) (set_up_services svc amqp config type s)
  set_up_services-Routes config aa s a h other =
      let P = Routes (with_one s aa) in
      bind-OnReturn P _ _ s
        (λ _ _. bind-OnReturn P _ _ _ (λ _ _.
          bind-OnReturn P _ _ _
            (λ _ _. bind-OnReturn P _ _ _ (λ _ _ _ _ q. is_type-served aa q _ refl))))
        a h other
  set_up_services-Routes config scw s a h other =
      let P = Routes (with_one s scw) in
      bind-OnReturn P _ _ s
        (λ _ _.
          bind-OnReturn P _ _ _
            (λ _ _. bind-OnReturn P _ _ _ (λ _ _ _ _ q. is_type-served scw q _ refl)))
        a h other
  set_up_services-Routes config cross_chain s _ _ other =
      ground (arith, not_served cross_chain other refl)
  set_up_services-Routes config funding s _ _ other = ground (arith, not_served funding other refl)

  the_manager-OnReturn {ℓ} :
      {A : Type ℓ} (P : Setup svc amqp → Type 0) (name : String)
      (f : RelayerManager → Exec (Setup svc amqp) A) (s : Setup svc amqp)
      → ((m : RelayerManager) → OnReturn P (f m s))
      → OnReturn P ((the_manager svc amqp name >>= f) s)
  unfolding ◌>>=◌
  the_manager-OnReturn P name f s k =
      or_throw-OnReturn P (lookup name s.relayer_managers) _ f s (λ m _. k m)

  or_throw_state :
      (o : Option RelayerManager) (message : String) (s : Setup svc amqp)
      → (or_throw o message s).1 ≡ s
  unfolding or_throw
  or_throw_state none message s = refl
  or_throw_state (some m) message s = refl

  the_manager_cases :
      (P : Setup svc amqp → Type 0) (name : String) (s : Setup svc amqp)
      → P s
      → P (the_manager svc amqp name s).1
  the_manager_cases P name s p =
      gets_cases P _ _ s (subst P (sym (or_throw_state (lookup name s.relayer_managers) _ s)) p)

  set_up_type-Routes :
      (config : ChainConfig) (type : TransactionType) (s : Setup svc amqp)
      → OnReturn (Routes (with_one s type)) (set_up_type svc amqp config type s)
  unfolding set_up_type
  set_up_type-Routes config type s =
      the_manager-OnReturn (Routes (with_one s type)) (relayer_manager_name_of type) _ s
        (λ m. set_up_services-Routes config type s)

  abbrev with_all : Setup svc amqp → List TransactionType → TransactionType → Bool
  with_all s types other =
      s.route_transaction_to_relayer other || (has_service other && lists other types)

  set_up_types-Routes :
      (config : ChainConfig) (types : List TransactionType) (s : Setup svc amqp)
      → OnReturn (Routes (with_all s types)) (set_up_types svc amqp config types s)
  unfolding set_up_types lists
  set_up_types-Routes config [] s a h q = ground arith
  set_up_types-Routes config (type ∷ types) s a h q =
      bind-OnReturn (Routes (with_all s (type ∷ types))) (set_up_type svc amqp config type) _ s
        (λ x e b k other.
          let first = set_up_type-Routes config type s x e other in
          let rest = set_up_types-Routes config types _ b k other in rest ∙ rw first (ground arith))
        a h q

  abbrev SameRoutes : Setup svc amqp → Setup svc amqp → Type 0
  SameRoutes s t = t.route_transaction_to_relayer ≡ s.route_transaction_to_relayer

  set_up_manager-SameRoutes :
      (options : RelayerManagerOptions) (s t : Setup svc amqp)
      → SameRoutes s t
      → SameRoutes s (set_up_manager svc amqp options t).1
  unfolding set_up_manager on_manager
  set_up_manager-SameRoutes options s t k = gets_cases (SameRoutes s) _ _ t (
      returned_cases (SameRoutes s) _ _ _ t (
        bind_cases (SameRoutes s) _ _ _ k (λ addresses.
          let found = the_manager_cases (SameRoutes s) options.name _ k in
          bind_cases (SameRoutes s) _ _ _ found (λ created. found))))

  set_up_managers-SameRoutes :
      (managers : List RelayerManagerOptions) (s t : Setup svc amqp)
      → SameRoutes s t
      → SameRoutes s (set_up_managers svc amqp managers t).1
  unfolding set_up_managers
  set_up_managers-SameRoutes [] s t k = k
  set_up_managers-SameRoutes (options ∷ managers) s t k =
      let first = set_up_manager-SameRoutes options s t k in
      bind_cases (SameRoutes s) _ _ t first (λ _. set_up_managers-SameRoutes managers s _ first)

  -- Once the chain's turn has come to its end, the chain has a relay service for the transactions of
  -- exactly those supported types that are AA or SCW: the other types have none, supported or not.
  pub set_up_chain-routes :
      (config : ChainConfig) (w : svc.World) (broker : amqp.Broker) (type : TransactionType)
      → let r = set_up_chain svc amqp config (before_setup svc amqp w broker) in
        r.0 ≡ returned tt
        → r.1.route_transaction_to_relayer type
          ≡ (has_service type && lists type config.supported_transaction_type)
  unfolding set_up_chain detach
  set_up_chain-routes config w broker type h =
      let s = before_setup svc amqp w broker in
      let P = Routes (with_all s config.supported_transaction_type) in
      or_throw-OnReturn P _ _ _ s
        (λ _ _. or_throw-OnReturn P _ _ _ s (λ _ _. bind-OnReturn P _ _ s (λ _ _.
          bind-OnReturn P _ _ _ (λ _ _. bind-OnReturn P _ _ _ (λ _ _. bind-OnReturn P _ _ _ (λ _ _.
            bind-OnReturn P _ _ _ (λ _ _. bind-OnReturn P _ _ _ (λ _ _.
              bind-OnReturn P _ _ _ (λ _ _ a k q.
                set_up_types-Routes config config.supported_transaction_type _ a k q
                ∙ ap (λ f. f q || (has_service q && lists q config.supported_transaction_type))
                    (set_up_managers-SameRoutes config.relayer_managers s _ refl))))))))))
        tt h type
