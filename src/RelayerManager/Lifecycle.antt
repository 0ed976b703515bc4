-- ===== src/RelayerManager/Lifecycle.antt =====
-- The life of a relayer: any sequence of calls of the manager's methods, from its construction on.
pub mod Exclusive
pub mod Grows
pub mod Held
pub mod Keeps
pub mod Lost
pub mod Returns
pub mod Stranded
pub mod TakenBack
use relayer_node.Base.{
  ℕ, ◌+◌, ◌≤◌, String, ◌≡◌, ◌≢◌, refl, false, Option, none, some, List, [], ◌∷◌, arith, inl, inr,
  ◌↔◌, Option-cases, eq_iff, str_eq,
}
use relayer_node.Js.Dict.{lookup, lookup-insert}
use relayer_node.Types.{Account}
use relayer_node.RelayerQueue.{RelayerMetaData}
use relayer_node.RelayerQueue.Members.{occurrences, pop-Pops}
use relayer_node.RelayerManager.State.{
  RelayerManager, RelayerManagerOptions, new_relayer_manager, Services, State,
}
use relayer_node.RelayerManager.Create.{create_relayers}
use relayer_node.RelayerManager.Fund.{fund_relayers}
use relayer_node.RelayerManager.Operations.{
  get_active_relayer, post_transaction_mined, add_active_relayer, set_min_relayer_count,
  set_max_relayer_count, set_inactive_relayer_count_threshold,
  set_pending_transaction_count_threshold,
}
use relayer_node.RelayerManager.Consistency.{
  present, copies, HasDistinctAddresses, IsConsistent, nothing, IsWellFormed,
}
use relayer_node.RelayerManager.Consistency.Creation.{create_relayers-IsConsistent}
use relayer_node.RelayerManager.Consistency.Steps.{
  get_active_relayer-IsConsistent, manager-fund_relayers, post_transaction_mined-IsConsistent,
  add_active_relayer-IsConsistent,
}

module _ (svc : Services) where
  open svc use {World}

  -- One call, or something that the services do by themselves.
  pub data Step : State World → State World → Type 0 where
    hands_out : (s : State World) → Step s (record s { manager = (get_active_relayer s.manager).1 })
    takes_back : (s : State World) (address : String) → Step s (add_active_relayer svc address s).1
    mined : (s : State World) (address : String) → Step s (post_transaction_mined svc address s).1
    creates : (s : State World) (n : ℕ) → Step s (create_relayers svc n s).1
    funds : (s : State World) (addresses : List String) → Step s (fund_relayers svc addresses s).1
    sets_min :
        (s : State World) (n : ℕ)
        → Step s (record s { manager = set_min_relayer_count n s.manager })
    sets_max :
        (s : State World) (n : ℕ)
        → Step s (record s { manager = set_max_relayer_count n s.manager })
    sets_inactive :
        (s : State World) (n : ℕ)
        → Step s (record s { manager = set_inactive_relayer_count_threshold n s.manager })
    sets_pending :
        (s : State World) (n : ℕ)
        → Step s (record s { manager = set_pending_transaction_count_threshold n s.manager })
    services : (s : State World) (w : World) → Step s (record s { world = w })

  pub data Reach (s : State World) : State World → Type 0 where
    here : Reach s s
    next : {t u : State World} → Reach s t → Step t u → Reach s u

  pub Reach-trans : {s t u : State World} → Reach s t → Reach t u → Reach s u
  Reach-trans r here = r
  Reach-trans r (next q st) = next (Reach-trans r q) st

  -- A manager with an empty queue of its own.
  unfoldable pub new_state : RelayerManagerOptions → World → State World
  new_state options w = record {
    manager = new_relayer_manager options (record { items = [] });
    create_relayer_mutex = false;
    fund_relayer_mutex = false;
    world = w;
  }

  pub new_state-IsWellFormed :
      (options : RelayerManagerOptions) (w : World) → IsWellFormed svc (new_state options w).manager
  unfolding new_state lookup occurrences
  new_state-IsWellFormed options w = record {
    once = λ a. omega arith;
    known = λ a p. absurd (omega arith);
    keyed = λ a r e. cc;
    account = λ a r e. cc;
    derived = λ a r e. cc;
  }

  module _ (distinct : (seed : String) → HasDistinctAddresses svc seed) (f : String → ℕ) where
    Step-IsConsistent :
        {s t : State World} → Step s t → IsConsistent svc f s.manager → IsConsistent svc f t.manager
    unfolding set_min_relayer_count set_max_relayer_count set_inactive_relayer_count_threshold
        set_pending_transaction_count_threshold
    Step-IsConsistent (hands_out s) h = get_active_relayer-IsConsistent svc f s.manager h
    Step-IsConsistent (takes_back s a) h = add_active_relayer-IsConsistent svc f distinct a s h
    Step-IsConsistent (mined s a) h = post_transaction_mined-IsConsistent svc f a s h
    Step-IsConsistent (creates s n) h =
        create_relayers-IsConsistent svc f n s (distinct s.manager.relayer_seed) h
    Step-IsConsistent (funds s l) h = rw (manager-fund_relayers svc f l s) h
    Step-IsConsistent (services s w) h = h
    Step-IsConsistent _ h = record {
      once = h.once;
      known = h.known;
      keyed = h.keyed;
      account = h.account;
      derived = h.derived;
    }

    -- Every sequence of calls of the manager keeps it in good order, if the wallet derivation gives
    -- distinct addresses: no address is held twice, by the queue, the processing map or, as counted by
    -- `f`, on the way between them; what is held has an account under its own address, and the accounts
    -- are those of the first indices of the seed.
    pub Reach-IsConsistent :
        {s t : State World}
        → Reach s t
        → IsConsistent svc f s.manager
        → IsConsistent svc f t.manager
    Reach-IsConsistent here h = h
    Reach-IsConsistent (next r st) h = Step-IsConsistent st (Reach-IsConsistent r h)
