-- ===== src/Tests/Managers.antt =====
-- Runs of the relayer manager.
use relayer_node.Base.{none, ◌↔◌, String, ◌≡◌, refl, true, false, some, [], ◌∷◌, pos, ltb_ℤ}
use relayer_node.Exec.{thrown, waiting, ◌>>=◌, try_catch}
use relayer_node.Js.Dict.{lookup, insert}
use relayer_node.Js.Text.{to_lower_case, to_string}
use relayer_node.Types.{eip1559, Account}
use relayer_node.RelayerQueue.{RelayerMetaData, push, pop, find, sort_by_balance}
use relayer_node.Js.Sort.{sort, sort_onto, insert_by}
use relayer_node.RelayerManager.State.{
  Services, State, acquire_create, release_create, get_relayers_count,
}
use relayer_node.RelayerManager.Create.{
  node_path, account_at, derive_relayers, enqueue_relayer, enqueue_relayers, enqueue_if,
  create_relayers,
}
use relayer_node.RelayerManager.Fund.{
  fund_relayer, hex_gas_price, has_balance_below_threshold, fund_relayers,
}
use relayer_node.RelayerManager.Operations.{get_active_relayer, add_active_relayer}
use relayer_node.RelayerManager.Consistency.{nothing, IsConsistent, HasDistinctAddresses}
use relayer_node.RelayerManager.Lifecycle.{
  creates, hands_out, Reach, here, next, new_state, new_state-IsWellFormed, Reach-IsConsistent,
}
use relayer_node.RelayerManager.Lifecycle.Exclusive.{
  IsExclusive, get_active_relayer-IsExclusive, get_active_relayer-none_iff,
}
use relayer_node.RelayerManager.Lifecycle.Lost.{IsLost, add_active_relayer-IsLost}
use relayer_node.RelayerManager.Funding.{locked}
use relayer_node.RelayerManager.Lifecycle.Held.{fund_relayers-leaks_mutex, fund_relayers-of_pairs}
use relayer_node.Tests.Instances.{
  test_services, test_services-HasDistinctAddresses, test_options, start,
}

abbrev svc : Services
svc = test_services (eip1559 "1" "2")

abbrev begun : State Unit
begun = start (eip1559 "1" "2")

-- Two relayers are made.
abbrev created : State Unit
created = (create_relayers svc 2 begun).1

abbrev address : String
address = "m/44'/60'/0'/0/1"

abbrev relayer : Account
relayer = record { public_key = address; private_key = "key" }

hands_out_one : (get_active_relayer created.manager).0 ≡ some relayer
unfolding create_relayers acquire_create release_create get_relayers_count derive_relayers
    account_at node_path enqueue_relayer enqueue_relayers enqueue_if get_active_relayer lookup
    insert push sort_by_balance sort sort_onto insert_by pop to_lower_case to_string try_catch ◌>>=◌
    new_state
hands_out_one = refl

created_is_reached : Reach svc begun created
created_is_reached = next here (creates begun 2)

abbrev distinct : (seed : String) → HasDistinctAddresses svc seed
distinct = test_services-HasDistinctAddresses (eip1559 "1" "2")

Reach-IsConsistent_example : IsConsistent svc nothing created.manager
Reach-IsConsistent_example =
    Reach-IsConsistent svc distinct nothing created_is_reached
      (new_state-IsWellFormed svc test_options tt)

get_active_relayer-IsExclusive_example :
    IsExclusive relayer created.manager (get_active_relayer created.manager).1
get_active_relayer-IsExclusive_example =
    get_active_relayer-IsExclusive svc distinct test_options tt created relayer created_is_reached
      hands_out_one

get_active_relayer-none_iff_example :
    ((get_active_relayer created.manager).0 ≡ none) ↔ (created.manager.relayer_queue.items ≡ [])
get_active_relayer-none_iff_example =
    get_active_relayer-none_iff svc distinct test_options tt created created_is_reached

-- The relayer carries a transaction.
abbrev busy : State Unit
busy = record created { manager = (get_active_relayer created.manager).1 }

abbrev with_one_pending : RelayerMetaData
with_one_pending = record { address = address; nonce = 0; pending_count = pos 1; balance = 5 }

carries_one :
    lookup (to_lower_case address) busy.manager.transaction_processing_relayer_map
    ≡ some with_one_pending
unfolding create_relayers acquire_create release_create get_relayers_count derive_relayers
    account_at node_path enqueue_relayer enqueue_relayers enqueue_if get_active_relayer lookup
    insert push sort_by_balance sort sort_onto insert_by pop to_lower_case to_string try_catch ◌>>=◌
    new_state
carries_one = refl

is_full :
    ltb_ℤ with_one_pending.pending_count busy.manager.pending_transaction_count_threshold ≡ false
unfolding create_relayers acquire_create release_create get_relayers_count derive_relayers
    account_at node_path enqueue_relayer enqueue_relayers enqueue_if get_active_relayer lookup
    insert push sort_by_balance sort sort_onto insert_by pop to_lower_case to_string try_catch ◌>>=◌
    new_state
is_full = refl

add_active_relayer-IsLost_example : IsLost svc address (add_active_relayer svc address busy).1
add_active_relayer-IsLost_example =
    add_active_relayer-IsLost svc distinct test_options tt busy
      (add_active_relayer svc address busy).1 address with_one_pending
      (next created_is_reached (hands_out created)) carries_one is_full here

is_free : created.fund_relayer_mutex ≡ false
unfolding create_relayers acquire_create release_create get_relayers_count derive_relayers
    account_at node_path enqueue_relayer enqueue_relayers enqueue_if get_active_relayer lookup
    insert push sort_by_balance sort sort_onto insert_by pop to_lower_case to_string try_catch ◌>>=◌
    new_state
is_free = refl

has_little : has_balance_below_threshold created.manager (to_lower_case address) ≡ true
unfolding create_relayers acquire_create release_create get_relayers_count derive_relayers
    account_at node_path enqueue_relayer enqueue_relayers enqueue_if get_active_relayer lookup
    insert push sort_by_balance sort sort_onto insert_by pop to_lower_case to_string try_catch ◌>>=◌
    new_state has_balance_below_threshold find
has_little = refl

cannot_be_funded :
    (fund_relayer svc (to_lower_case address) (locked svc created)).0
    ≡ thrown (record { message = "invalid BigNumber value" })
unfolding fund_relayer hex_gas_price ◌>>=◌
cannot_be_funded = refl

-- The manager after the exception, and a call of getActiveRelayer.
abbrev held : State Unit
held =
    let r = (fund_relayers svc (address ∷ []) created).1 in
    record r { manager = (get_active_relayer r.manager).1 }

fund_relayers-leaks_mutex_example :
    ((fund_relayers svc (address ∷ []) created).0
      ≡ thrown (record { message = "invalid BigNumber value" }))
    × (fund_relayers svc ("0x0d" ∷ []) held ≡ (waiting, held))
fund_relayers-leaks_mutex_example =
    fund_relayers-leaks_mutex svc created held address []
      (record { message = "invalid BigNumber value" }) "0x0d" [] is_free has_little cannot_be_funded
      (next here (hands_out (fund_relayers svc (address ∷ []) created).1))

fund_relayers-of_pairs_example :
    ((fund_relayers svc (address ∷ []) created).0
      ≡ thrown (record { message = "invalid BigNumber value" }))
    × (fund_relayers svc ("0x0d" ∷ []) held ≡ (waiting, held))
fund_relayers-of_pairs_example =
    fund_relayers-of_pairs svc created held address [] "0x0d" [] (λ w. tt) (λ w. tt) is_free
      has_little (next here (hands_out (fund_relayers svc (address ∷ []) created).1))
