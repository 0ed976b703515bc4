-- ===== src/RelayerManager/Operations.antt =====
-- The other methods of EVMRelayerManager: handing relayers out, taking them back, and what follows a
-- mined transaction. Each is a step of its own; the order of steps is that of the awaited calls.
use mathlib.Core.Option
use relayer_node.Base.{
  ℕ, ◌+◌, String, Bool, Option, none, some, List, [], ◌∷◌, leb, ltb, str_eq, ◌≡◌, arith, eq_iff,
  inl, inr, Option-cases, if◌then◌else◌, succ_ℤ, pred_ℤ, ltb_ℤ,
}
use relayer_node.Js.Text.{to_lower_case}
use relayer_node.Js.Dict.{Dict, lookup, lookup-insert, insert, delete, keys}
use relayer_node.Exec.{Result, returned, thrown, Exec, ◌>>=◌, ◌>>◌, pure, try_catch, type_error}
use relayer_node.Types.{Account}
use relayer_node.RelayerQueue
use relayer_node.RelayerQueue.{RelayerMetaData}
use relayer_node.RelayerManager.State.{RelayerManager, Services, State, service, update}
use relayer_node.RelayerManager.Create.{create_relayers}
use relayer_node.RelayerManager.Fund.{fund_relayers}

-- this.transactionProcessingRelayerMap[activeRelayer.address] = activeRelayer
abbrev pub start_processing : RelayerMetaData → RelayerManager → RelayerManager
start_processing relayer m = record m {
  transaction_processing_relayer_map =
      insert relayer.address relayer m.transaction_processing_relayer_map;
}

abbrev pub with_pending : RelayerMetaData → RelayerMetaData
with_pending relayer = record relayer { pending_count = succ_ℤ relayer.pending_count }

abbrev pub take_out : Option RelayerMetaData → RelayerManager → Option Account × RelayerManager
take_out none m = (none, m)
take_out (some active) m =
    (lookup active.address m.relayer_map, start_processing (with_pending active) m)

-- getActiveRelayer. `none` is null, and undefined for an address that the map does not hold.
unfoldable pub get_active_relayer : RelayerManager → Option Account × RelayerManager
get_active_relayer m =
    let (active, queue) = RelayerQueue.pop m.relayer_queue in
    take_out active (record m { relayer_queue = queue })

unfoldable pub get_relayer : RelayerManager → String → Option Account
get_relayer m relayer_address = lookup (to_lower_case relayer_address) m.relayer_map

-- The object that postTransactionMined changes: in the queue, or else in the processing map.
abbrev pub find_relayer_data : String → RelayerManager → Option RelayerMetaData
find_relayer_data address m = elim (RelayerQueue.find address m.relayer_queue.items) [
  | some relayer_data ↦ some relayer_data
  | none ↦ lookup address m.transaction_processing_relayer_map
]

unfoldable pub write_processing :
    String → (RelayerMetaData → RelayerMetaData) → Dict RelayerMetaData → Dict RelayerMetaData
write_processing address f d = elim (lookup address d) [
  | none ↦ d
  | some relayer_data ↦ insert address (f relayer_data) d
]

pub lookup-write_processing :
    (a b : String) (f : RelayerMetaData → RelayerMetaData) (d : Dict RelayerMetaData)
    → lookup b (write_processing a f d)
      ≡ (if str_eq a b then Option.map f (lookup b d) else lookup b d)
unfolding write_processing
lookup-write_processing a b f d = elim (Option-cases (lookup a d)) [
  | inl free ↦ ground (arith, eq_iff a b)
  | inr (r, found) ↦ ground (arith, eq_iff a b, lookup-insert a b (f r) d)
]

-- A write to a field of that object, wherever it stands.
unfoldable pub write_relayer_data :
    String → (RelayerMetaData → RelayerMetaData) → RelayerManager → RelayerManager
write_relayer_data address f m = elim (RelayerQueue.find address m.relayer_queue.items) [
  | some _ ↦ record m {
    relayer_queue = record { items = RelayerQueue.modify address f m.relayer_queue.items };
  }
  | none ↦ record m {
    transaction_processing_relayer_map =
        write_processing address f m.transaction_processing_relayer_map;
  }
]

abbrev pub without_pending : RelayerMetaData → RelayerMetaData
without_pending relayer = record relayer { pending_count = pred_ℤ relayer.pending_count }

abbrev pub with_balance : ℕ → RelayerMetaData → RelayerMetaData
with_balance balance relayer = record relayer { balance = balance }

-- if (relayer.pendingCount < threshold) await this.relayerQueue.push(relayer);
-- delete this.transactionProcessingRelayerMap[address];
unfoldable pub return_relayer : String → RelayerMetaData → RelayerManager → RelayerManager
return_relayer address relayer m = record m {
  relayer_queue =
      (if ltb_ℤ relayer.pending_count m.pending_transaction_count_threshold
        then RelayerQueue.push m.relayer_queue relayer
        else m.relayer_queue);
  transaction_processing_relayer_map = delete address m.transaction_processing_relayer_map;
}

-- this.minRelayerCount - this.relayerQueue.size() >= this.inactiveRelayerCountThreshold: the
-- difference may be negative, so the size is moved to the other side.
unfoldable pub is_short_of_relayers : RelayerManager → Bool
is_short_of_relayers m =
    leb (RelayerQueue.size m.relayer_queue + m.inactive_relayer_count_threshold) m.min_relayer_count

module _ (svc : Services) where
  open svc use {World, get_balance}

  -- if (balance.lt(threshold)) try { await this.fundRelayers([address]); } catch { }
  unfoldable pub fund_if_less : ℕ → String → Exec (State World) (Unit {0})
  fund_if_less balance address s =
      (if ltb balance s.manager.funding_balance_threshold
          then try_catch (fund_relayers svc (address ∷ [])) (λ _. pure tt)
          else pure tt)
        s

  unfoldable pub settle : String → Option RelayerMetaData → Exec (State World) (Unit {0})
  settle address none = pure tt
  settle address (some _) = do
    update (write_relayer_data address without_pending)
    balance ← service (get_balance address)
    update (write_relayer_data address (with_balance balance))
    fund_if_less balance address

  unfoldable pub post_transaction_mined : String → Exec (State World) (Unit {0})
  post_transaction_mined relayer_address s =
      let address = to_lower_case relayer_address in
      settle address (find_relayer_data address s.manager) s

  unfoldable pub scale_up : Exec (State World) (Unit {0})
  scale_up s =
      (if is_short_of_relayers s.manager
          then (do create_relayers svc s.manager.new_relayer_instance_count; pure tt)
          else pure tt)
        s

  unfoldable pub take_back : String → Option RelayerMetaData → Exec (State World) (Unit {0})
  take_back address none = pure tt
  take_back address (some relayer) = do update (return_relayer address relayer); scale_up

  unfoldable pub add_active_relayer : String → Exec (State World) (Unit {0})
  add_active_relayer relayer_address s =
      let address = to_lower_case relayer_address in
      take_back address (lookup address s.manager.transaction_processing_relayer_map) s

-- getRelayers: `relayerDataMap[relayer]` is undefined when its balance is set, which throws.
unfoldable pub read_relayers : List String → RelayerManager → Result (Dict RelayerMetaData)
read_relayers [] m = returned []
read_relayers (relayer ∷ relayers) m = elim (RelayerQueue.get m.relayer_queue relayer) [
  | none ↦ read_relayers relayers m
  | some _ ↦ thrown (type_error "Cannot set properties of undefined (setting 'balance')")
]

unfoldable pub get_relayers : RelayerManager → Result (Dict RelayerMetaData)
get_relayers m = read_relayers (keys m.relayer_map) m

-- The setters and getters of the counts and thresholds.
unfoldable pub set_min_relayer_count : ℕ → RelayerManager → RelayerManager
set_min_relayer_count n m = record m { min_relayer_count = n }

unfoldable pub set_max_relayer_count : ℕ → RelayerManager → RelayerManager
set_max_relayer_count n m = record m { max_relayer_count = n }

unfoldable pub set_inactive_relayer_count_threshold : ℕ → RelayerManager → RelayerManager
set_inactive_relayer_count_threshold n m = record m { inactive_relayer_count_threshold = n }

unfoldable pub set_pending_transaction_count_threshold : ℕ → RelayerManager → RelayerManager
set_pending_transaction_count_threshold n m = record m { pending_transaction_count_threshold = n }
