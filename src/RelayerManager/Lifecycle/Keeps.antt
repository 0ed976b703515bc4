-- ===== src/RelayerManager/Lifecycle/Keeps.antt =====
-- What stays true while the manager's methods run, if it depends little on the manager.
use relayer_node.Base.{
  ℕ, String, Bool, true, false, Option, none, some, List, [], ◌∷◌, inl, inr, Bool-cases, ltb, ◌≡◌,
  refl, arith,
}
use relayer_node.Js.Text.{to_lower_case}
use relayer_node.Exec.{bind_cases, gets_cases, returned_cases, try_cases}
use relayer_node.Types.{Account}
use relayer_node.RelayerQueue.{RelayerMetaData}
use relayer_node.RelayerManager.State.{
  RelayerManager, Services, State, acquire_create, release_create,
}
use relayer_node.RelayerManager.Create.{
  enqueue_relayer, enqueue_relayers, enqueue_if, create_relayers,
}
use relayer_node.RelayerManager.Fund.{fund_relayers}
use relayer_node.RelayerManager.Operations.{
  fund_if_less, settle, post_transaction_mined, scale_up, take_back, add_active_relayer,
  return_relayer, get_active_relayer, is_short_of_relayers, without_pending, with_balance,
  set_min_relayer_count, set_max_relayer_count, set_inactive_relayer_count_threshold,
  set_pending_transaction_count_threshold,
}
use relayer_node.RelayerManager.Lifecycle.{
  hands_out, takes_back, mined, creates, funds, services, sets_min, sets_max, sets_inactive,
  sets_pending, Reach, here, next,
}
use relayer_node.RelayerManager.Lifecycle.Grows.{
  Grows, push_relayer-Grows, write_relayer_data-Grows, derive_relayers-Grows,
}

module _ (svc : Services) where
  -- The addresses that a sequence of calls takes back are all of a kind.
  abbrev pub TakesBackOnly : (String → Type 0) → {s t : State svc.World} → Reach svc s t → Type 0
  TakesBackOnly Q here = Unit
  TakesBackOnly Q (next r (takes_back s a)) = TakesBackOnly Q r × Q (to_lower_case a)
  TakesBackOnly Q (next r _) = TakesBackOnly Q r

  pub takes_back_anything :
      {s t : State svc.World} (r : Reach svc s t) → TakesBackOnly (λ a. Unit) r
  takes_back_anything here = tt
  takes_back_anything (next r (takes_back s a)) = (takes_back_anything r, tt)
  takes_back_anything (next r (hands_out s)) = takes_back_anything r
  takes_back_anything (next r (mined s a)) = takes_back_anything r
  takes_back_anything (next r (creates s n)) = takes_back_anything r
  takes_back_anything (next r (funds s l)) = takes_back_anything r
  takes_back_anything (next r (sets_min s n)) = takes_back_anything r
  takes_back_anything (next r (sets_max s n)) = takes_back_anything r
  takes_back_anything (next r (sets_inactive s n)) = takes_back_anything r
  takes_back_anything (next r (sets_pending s n)) = takes_back_anything r
  takes_back_anything (next r (services s w)) = takes_back_anything r

module _ (svc : Services) (P : State svc.World → Type 0)
    (of_world : (s : State svc.World) (w : svc.World) → P s → P (record s { world = w }))
    (of_manager : (s : State svc.World) (m : RelayerManager)
      → Grows s.manager m
      → P s
      → P (record s { manager = m }))
    (of_funds : (addresses : List String) (s : State svc.World)
      → P s
      → P (fund_relayers svc addresses s).1) where
  fund_if_less-keeps :
      (balance : ℕ) (address : String) (s : State svc.World)
      → P s
      → P (fund_if_less svc balance address s).1
  unfolding fund_if_less
  fund_if_less-keeps balance address s h =
      elim (Bool-cases (ltb balance s.manager.funding_balance_threshold)) [
        | inl less ↦ simp less (try_cases P _ _ s (of_funds (address ∷ []) s h) (λ e kept. kept))
        | inr enough ↦ simp enough h
      ]

  pub settle-keeps :
      (address : String) (found : Option RelayerMetaData) (s : State svc.World)
      → P s
      → P (settle svc address found s).1
  unfolding settle
  settle-keeps address none s h = h
  settle-keeps address (some r) s h = returned_cases P _ _ _ s (
      let counted =
        of_manager s _ (write_relayer_data-Grows address without_pending s.manager (λ r. refl)) h in
      let written = of_world _ _ counted in
      bind_cases P _ _ _ written (λ balance. returned_cases P _ _ _ _ (
        fund_if_less-keeps balance address _ (
          of_manager _ _ (write_relayer_data-Grows address (with_balance balance) _ (λ r. refl))
            written))))

  module _
      (of_mutex : (s : State svc.World) (b : Bool)
        → P s
        → P (record s { create_relayer_mutex = b })) where
    enqueue_relayer-keeps :
        (relayer : Account) (s : State svc.World) → P s → P (enqueue_relayer svc relayer s).1
    unfolding enqueue_relayer
    enqueue_relayer-keeps relayer s h =
        try_cases P _ _ s
          (let asked = of_world _ _ h in
            bind_cases P _ _ _ asked (λ balance.
              let answered = of_world _ _ asked in
              bind_cases P _ _ _ answered (λ nonce.
                returned_cases P _ _ _ _
                  (of_manager _ _ (push_relayer-Grows relayer nonce balance s.manager) answered))))
          (λ e kept. kept)

    enqueue_relayers-keeps :
        (relayers : List Account) (s : State svc.World)
        → P s
        → P (enqueue_relayers svc relayers s).1
    unfolding enqueue_relayers
    enqueue_relayers-keeps [] s h = h
    enqueue_relayers-keeps (relayer ∷ relayers) s h =
        let added = enqueue_relayer-keeps relayer s h in
        bind_cases P _ _ s added (λ _.
          let kept = enqueue_relayers-keeps relayers _ added in bind_cases P _ _ _ kept (λ _. kept))

    enqueue_if-keeps :
        (finished : Bool) (relayers : List Account) (s : State svc.World)
        → P s
        → P (enqueue_if svc finished relayers s).1
    unfolding enqueue_if
    enqueue_if-keeps true relayers s h = enqueue_relayers-keeps relayers s h
    enqueue_if-keeps false relayers s h = h

    acquire_create-keeps : (s : State svc.World) → P s → P (acquire_create s).1
    unfolding acquire_create
    acquire_create-keeps s h = elim (Bool-cases s.create_relayer_mutex) [
      | inl held ↦ simp held h
      | inr free ↦ simp free (of_mutex s true h)
    ]

    create_relayers-keeps : (n : ℕ) (s : State svc.World) → P s → P (create_relayers svc n s).1
    unfolding create_relayers release_create
    create_relayers-keeps n s h =
        let entered = acquire_create-keeps s h in
        bind_cases P acquire_create _ s entered (λ _. gets_cases P _ _ _ (
          returned_cases P _ _ _ _ (
            let queued =
              enqueue_if-keeps _ _ _ (of_manager _ _ (derive_relayers-Grows svc n _ _) entered) in
            bind_cases P _ _ _ queued (λ _. returned_cases P _ _ _ _ (of_mutex _ false queued)))))

    pub scale_up-keeps : (s : State svc.World) → P s → P (scale_up svc s).1
    unfolding scale_up
    scale_up-keeps s h = elim (Bool-cases (is_short_of_relayers s.manager)) [
      | inl short ↦ simp short (
          let created = create_relayers-keeps s.manager.new_relayer_instance_count s h in
          bind_cases P _ _ s created (λ _. created))
      | inr enough ↦ simp enough h
    ]

    module _ (Q : String → Type 0)
        (of_hand : (s : State svc.World)
          → P s
          → P (record s { manager = (get_active_relayer s.manager).1 }))
        (of_return : (s : State svc.World) (a : String) (relayer : RelayerMetaData)
          → Q a
          → P s
          → P (record s { manager = return_relayer a relayer s.manager })) where
      take_back-keeps :
          (address : String) (found : Option RelayerMetaData) (s : State svc.World)
          → Q address
          → P s
          → P (take_back svc address found s).1
      unfolding take_back
      take_back-keeps address none s q h = h
      take_back-keeps address (some r) s q h =
          returned_cases P _ _ _ s (scale_up-keeps _ (of_return s address r q h))

      of_setting :
          (s : State svc.World) (m : RelayerManager)
          → m.relayer_queue ≡ s.manager.relayer_queue
          → m.transaction_processing_relayer_map ≡ s.manager.transaction_processing_relayer_map
          → P s
          → P (record s { manager = m })
      of_setting s m queue processing h =
          of_manager s m (λ a. rw (queue, processing) (omega arith, refl)) h

      pub Reach-keeps :
          {s t : State svc.World} (r : Reach svc s t) → TakesBackOnly svc Q r → P s → P t
      unfolding post_transaction_mined add_active_relayer set_min_relayer_count
          set_max_relayer_count set_inactive_relayer_count_threshold
          set_pending_transaction_count_threshold
      Reach-keeps here q h = h
      Reach-keeps (next r (takes_back s a)) q h = take_back-keeps _ _ s q.1 (Reach-keeps r q.0 h)
      Reach-keeps (next r (hands_out s)) q h = of_hand s (Reach-keeps r q h)
      Reach-keeps (next r (mined s a)) q h = settle-keeps _ _ s (Reach-keeps r q h)
      Reach-keeps (next r (creates s n)) q h = create_relayers-keeps n s (Reach-keeps r q h)
      Reach-keeps (next r (funds s l)) q h = of_funds l s (Reach-keeps r q h)
      Reach-keeps (next r (sets_min s n)) q h = of_setting s _ refl refl (Reach-keeps r q h)
      Reach-keeps (next r (sets_max s n)) q h = of_setting s _ refl refl (Reach-keeps r q h)
      Reach-keeps (next r (sets_inactive s n)) q h = of_setting s _ refl refl (Reach-keeps r q h)
      Reach-keeps (next r (sets_pending s n)) q h = of_setting s _ refl refl (Reach-keeps r q h)
      Reach-keeps (next r (services s w)) q h = of_world s w (Reach-keeps r q h)
