-- ===== src/RelayerManager/Consistency/Steps.antt =====
-- Every method of the manager keeps each relayer in one place at most.
use relayer_node.Base.{
  ℕ, String, ◌≡◌, refl, ap, Option, none, some, List, [], ◌∷◌, arith, eq_iff, ltb, inl, inr,
  Option-cases, Bool-cases, ltb,
}
use relayer_node.Js.Text.{to_lower_case}
use relayer_node.Js.Dict.{lookup, lookup-insert, lookup-delete}
use relayer_node.Exec.{bind_cases, try_cases, returned_cases}
use relayer_node.RelayerQueue
use relayer_node.RelayerQueue.{RelayerMetaData}
use relayer_node.RelayerQueue.Members.{occurrences, pop-Pops, occurrences-push, occurrences-modify}
use relayer_node.RelayerManager.State.{RelayerManager, Services, State}
use relayer_node.RelayerManager.Funding.Keeps.{fund_relayers-keeps}
use relayer_node.RelayerManager.Fund.{fund_relayers}
use relayer_node.RelayerManager.Operations.{
  start_processing, with_pending, without_pending, with_balance, get_active_relayer,
  write_relayer_data, return_relayer, fund_if_less, settle, post_transaction_mined, scale_up,
  take_back, add_active_relayer, find_relayer_data, is_short_of_relayers, write_processing,
  lookup-write_processing,
}
use relayer_node.RelayerManager.Consistency.{HasDistinctAddresses, IsConsistent}
use relayer_node.RelayerManager.Consistency.Creation.{create_relayers-IsConsistent}

module _ (svc : Services) (f : String → ℕ) where
  start_processing-IsConsistent :
      (m : RelayerManager) (item : RelayerMetaData) (rest : List RelayerMetaData)
      → m.relayer_queue.items ≡ item ∷ rest
      → IsConsistent svc f m
      → IsConsistent svc f (
          start_processing
            (with_pending item)
            (record m { relayer_queue = record { items = rest } }))
  unfolding occurrences
  start_processing-IsConsistent m item rest e h =
      let inserted = λ (a : String).
        lookup-insert item.address a (with_pending item) m.transaction_processing_relayer_map in
      let counted = λ (a : String). ap (occurrences a) e in
      record {
        once = λ a. ground (arith, h.once a, counted a, inserted a);
        known = λ a p. ground (arith, h.known a, counted a, inserted a);
        keyed = λ a r p. ground (arith, h.keyed a r, inserted a, eq_iff item.address a);
        account = h.account;
        derived = h.derived;
      }

  -- Handing a relayer out keeps every relayer in one place at most.
  pub get_active_relayer-IsConsistent :
      (m : RelayerManager) → IsConsistent svc f m → IsConsistent svc f (get_active_relayer m).1
  unfolding get_active_relayer
  get_active_relayer-IsConsistent m h = elim (pop-Pops m.relayer_queue) [
    | inl (_, e) ↦ rw (e, get_active_relayer) h
    | inr (item, rest, front, e) ↦
        rw (e, get_active_relayer) (start_processing-IsConsistent m item rest front h)
  ]

  return_relayer-IsConsistent :
      (a : String) (relayer : RelayerMetaData) (m : RelayerManager)
      → lookup a m.transaction_processing_relayer_map ≡ some relayer
      → IsConsistent svc f m
      → IsConsistent svc f (return_relayer a relayer m)
  unfolding return_relayer
  return_relayer-IsConsistent a relayer m e h =
      let deleted = λ (b : String). lookup-delete a b m.transaction_processing_relayer_map in
      let pushed = λ (b : String). occurrences-push b m.relayer_queue relayer in
      let same = h.keyed a relayer e in
      record {
        once = λ b. ground (arith, h.once b, deleted b, pushed b, eq_iff a b, same);
        known = λ b p. ground (arith, h.known b, deleted b, pushed b, eq_iff a b, same);
        keyed = λ b r p. ground (arith, h.keyed b r, deleted b);
        account = h.account;
        derived = h.derived;
      }

  write_relayer_data-IsConsistent :
      (a : String) (g : RelayerMetaData → RelayerMetaData) (m : RelayerManager)
      → ((r : RelayerMetaData) → (g r).address ≡ r.address)
      → IsConsistent svc f m
      → IsConsistent svc f (write_relayer_data a g m)
  unfolding write_relayer_data
  write_relayer_data-IsConsistent a g m keeps h =
      let modified = λ (b : String). occurrences-modify b a g m.relayer_queue.items keeps in
      let written =
        λ (b : String). lookup-write_processing a b g m.transaction_processing_relayer_map in
      elim (Option-cases (RelayerQueue.find a m.relayer_queue.items)) [
        | inr (r, found) ↦
            rw (found, write_relayer_data)
              (record {
                once = λ b. omega (arith, h.once b, modified b);
                known = λ b p. h.known b (omega (arith, modified b));
                keyed = h.keyed;
                account = h.account;
                derived = h.derived;
              })
        | inl missing ↦
            rw (missing, write_relayer_data)
              (record {
                once = λ b. ground (arith, h.once b, written b);
                known = λ b p. ground (arith, h.known b, written b);
                keyed = λ b q p. keyed_write b q p;
                account = h.account;
                derived = h.derived;
              })
      ]
    where
      keyed_write :
          (b : String) (q : RelayerMetaData)
          → lookup b (write_processing a g m.transaction_processing_relayer_map) ≡ some q
          → q.address ≡ b
      keyed_write b q p = elim (Option-cases (lookup b m.transaction_processing_relayer_map)) [
        | inl free ↦
            ground (arith, lookup-write_processing a b g m.transaction_processing_relayer_map)
        | inr (r, found) ↦ ground (
          arith,
          lookup-write_processing a b g m.transaction_processing_relayer_map,
          keeps r,
          h.keyed b r,
        )
      ]

  abbrev IsSafe : State svc.World → Type 0
  IsSafe s = IsConsistent svc f s.manager

  -- Funding relayers leaves the manager's fields as they are, on every path.
  pub manager-fund_relayers :
      (address_list : List String) (s : State svc.World)
      → (fund_relayers svc address_list s).1.manager ≡ s.manager
  manager-fund_relayers address_list s =
      fund_relayers-keeps svc (λ t. t.manager ≡ s.manager) (λ t w h. h) (λ t b h. h) address_list s
        refl

  fund_if_less-IsConsistent :
      (balance : ℕ) (address : String) (s : State svc.World)
      → IsSafe s
      → IsSafe (fund_if_less svc balance address s).1
  unfolding fund_if_less
  fund_if_less-IsConsistent balance address s h =
      let funded : IsSafe (fund_relayers svc (address ∷ []) s).1 =
        rw (manager-fund_relayers (address ∷ []) s) h in
      elim (Bool-cases (ltb balance s.manager.funding_balance_threshold)) [
        | inl less ↦ simp less (try_cases IsSafe _ _ s funded (λ e kept. kept))
        | inr enough ↦ simp enough h
      ]

  settle-IsConsistent :
      (address : String) (found : Option RelayerMetaData) (s : State svc.World)
      → IsSafe s
      → IsSafe (settle svc address found s).1
  unfolding settle
  settle-IsConsistent address none s h = h
  settle-IsConsistent address (some r) s h =
      let counted =
        write_relayer_data-IsConsistent address without_pending s.manager (λ r. refl) h in
      returned_cases IsSafe _ _ _ s (
        bind_cases IsSafe _ _ _ counted (λ balance. returned_cases IsSafe _ _ _ _ (
          fund_if_less-IsConsistent balance address _ (
            write_relayer_data-IsConsistent address (with_balance balance) _ (λ r. refl) counted))))

  -- A mined transaction changes one relayer's counters where it stands.
  pub post_transaction_mined-IsConsistent :
      (a : String) (s : State svc.World)
      → IsConsistent svc f s.manager
      → IsConsistent svc f (post_transaction_mined svc a s).1.manager
  unfolding post_transaction_mined
  post_transaction_mined-IsConsistent a s h =
      settle-IsConsistent (to_lower_case a) (find_relayer_data (to_lower_case a) s.manager) s h

  module _ (distinct : (seed : String) → HasDistinctAddresses svc seed) where
    pub scale_up-IsConsistent : (s : State svc.World) → IsSafe s → IsSafe (scale_up svc s).1
    unfolding scale_up
    scale_up-IsConsistent s h =
        let created =
          create_relayers-IsConsistent svc f s.manager.new_relayer_instance_count s
            (distinct s.manager.relayer_seed) h in
        elim (Bool-cases (is_short_of_relayers s.manager)) [
          | inl short ↦ simp short (bind_cases IsSafe _ _ s created (λ _. created))
          | inr enough ↦ simp enough h
        ]

    -- Taking a relayer back moves it to the queue, or drops it, and may create new relayers.
    pub add_active_relayer-IsConsistent :
        (a : String) (s : State svc.World)
        → IsConsistent svc f s.manager
        → IsConsistent svc f (add_active_relayer svc a s).1.manager
    unfolding add_active_relayer take_back
    add_active_relayer-IsConsistent a s h =
        elim (Option-cases
          (lookup (to_lower_case a) s.manager.transaction_processing_relayer_map)) [
            | inl absent ↦ rw (absent, add_active_relayer, take_back) h
            | inr (relayer, busy) ↦
                rw (busy, add_active_relayer, take_back)
                  (returned_cases IsSafe _ _ _ s (
                    scale_up-IsConsistent _
                      (return_relayer-IsConsistent (to_lower_case a) relayer s.manager busy h)))
          ]
