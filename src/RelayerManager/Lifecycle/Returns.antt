-- ===== src/RelayerManager/Lifecycle/Returns.antt =====
-- createRelayers catches what its services throw, so that its mutex is always given back.
use relayer_node.Base.{
  ℕ, String, ◌≡◌, refl, Bool, true, false, Option, none, some, List, [], ◌∷◌, inl, inr, Bool-cases,
}
use relayer_node.Js.Text.{to_lower_case}
use relayer_node.Exec.{Exec, Result, returned, thrown, waiting}
use relayer_node.Exec.Ends.{
  EndsIn, Anything, Reaches, Leaves, bind-Reaches, bind-Leaves, try-Reaches, Reaches-state,
}
use relayer_node.Types.{Account}
use relayer_node.RelayerQueue.{RelayerMetaData}
use relayer_node.RelayerManager.State.{Services, State, service, acquire_create, release_create}
use relayer_node.RelayerManager.Create.{
  enqueue_relayer, enqueue_relayers, enqueue_if, create_relayers,
}
use relayer_node.RelayerManager.Fund.{fund_relayers}
use relayer_node.RelayerManager.Funding.Keeps.{fund_relayers-keeps}
use relayer_node.RelayerManager.Operations.{
  post_transaction_mined, scale_up, take_back, add_active_relayer, is_short_of_relayers,
}
use relayer_node.RelayerManager.Lifecycle.Keeps.{settle-keeps}
use relayer_node.RelayerManager.Lifecycle.{
  Step, takes_back, mined, creates, funds, Reach, here, next,
}

module _ (svc : Services) where
  -- createRelayerMutex is held, or free.
  abbrev pub Mutex : Bool → State svc.World → Type 0
  Mutex b s = s.create_relayer_mutex ≡ b

  answer-Leaves {ℓ} :
      {A : Type ℓ} (b : Bool) (r : Result A × svc.World) (s : State svc.World)
      → EndsIn Anything r.0
      → Mutex b s
      → Leaves (Mutex b) (r.0, record s { world = r.1 })
  answer-Leaves b (returned a, w) s e h = h
  answer-Leaves b (thrown e, w) s _ h = h
  answer-Leaves b (waiting, w) s e h = e

  service-Leaves {ℓ} :
      {A : Type ℓ} (b : Bool) (m : Exec svc.World A) (s : State svc.World)
      → EndsIn Anything (m s.world).0
      → Mutex b s
      → Leaves (Mutex b) (service m s)
  service-Leaves b m s ends h = answer-Leaves b (m s.world) s ends h

  abbrev pub Free : State svc.World → Type 0
  Free = Mutex false

  fund_relayers-Free :
      (addresses : List String) (s : State svc.World)
      → Free s
      → Free (fund_relayers svc addresses s).1
  fund_relayers-Free = fund_relayers-keeps svc Free (λ s w h. h) (λ s b h. h)

  module _ (balances : (a : String) (w : svc.World) → EndsIn Anything (svc.get_balance a w).0)
      (nonces : (a : String) (w : svc.World) → EndsIn Anything (svc.get_nonce a w).0) where
    enqueue_relayer-Reaches :
        (relayer : Account) (s : State svc.World)
        → Mutex true s
        → Reaches (Mutex true) (enqueue_relayer svc relayer s)
    unfolding enqueue_relayer
    enqueue_relayer-Reaches relayer s h =
        try-Reaches (Mutex true) _ _ s
          (bind-Leaves (Mutex true) _ _ s
            (service-Leaves true (svc.get_balance (to_lower_case relayer.public_key)) s
              (balances _ _) h)
            (λ balance t p.
              bind-Leaves (Mutex true) _ _ t
                (service-Leaves true (svc.get_nonce (to_lower_case relayer.public_key)) t
                  (nonces _ _) p)
                (λ nonce u q. bind-Leaves (Mutex true) _ _ u q (λ _ v z. z))))
          (λ e t p. p)

    enqueue_relayers-Reaches :
        (relayers : List Account) (s : State svc.World)
        → Mutex true s
        → Reaches (Mutex true) (enqueue_relayers svc relayers s)
    unfolding enqueue_relayers
    enqueue_relayers-Reaches [] s h = h
    enqueue_relayers-Reaches (relayer ∷ relayers) s h =
        bind-Reaches (Mutex true) (Mutex true) _ _ s (enqueue_relayer-Reaches relayer s h)
          (λ added t p.
            bind-Reaches (Mutex true) (Mutex true) _ _ t (enqueue_relayers-Reaches relayers t p)
              (λ rest u q. q))

    enqueue_if-Reaches :
        (finished : Bool) (relayers : List Account) (s : State svc.World)
        → Mutex true s
        → Reaches (Mutex true) (enqueue_if svc finished relayers s)
    unfolding enqueue_if
    enqueue_if-Reaches true relayers s h = enqueue_relayers-Reaches relayers s h
    enqueue_if-Reaches false relayers s h = h

    create_relayers-Reaches :
        (n : ℕ) (s : State svc.World)
        → Mutex false s
        → Reaches (Mutex false) (create_relayers svc n s)
    unfolding create_relayers acquire_create release_create
    create_relayers-Reaches n s h =
        bind-Reaches (Mutex true) Free acquire_create _ s (rw h refl) (λ _ t held.
          bind-Reaches (Mutex true) Free _ _ t held (λ m u p.
            bind-Reaches (Mutex true) Free _ _ u p (λ _ v q.
              bind-Reaches (Mutex true) Free _ _ v (enqueue_if-Reaches _ _ v q)
                (λ addresses w z. bind-Reaches Free Free _ _ w refl (λ _ x free. free)))))

    scale_up-Reaches : (s : State svc.World) → Free s → Reaches Free (scale_up svc s)
    unfolding scale_up
    scale_up-Reaches s h = elim (Bool-cases (is_short_of_relayers s.manager)) [
      | inl short ↦
          simp short (
            bind-Reaches Free Free _ _ s (create_relayers-Reaches _ s h) (λ addresses t free. free))
      | inr enough ↦ simp enough h
    ]

    take_back-Reaches :
        (address : String) (found : Option RelayerMetaData) (s : State svc.World)
        → Free s
        → Reaches Free (take_back svc address found s)
    unfolding take_back
    take_back-Reaches address none s h = h
    take_back-Reaches address (some r) s h =
        bind-Reaches Free Free _ _ s h (λ _ t free. scale_up-Reaches t free)

    add_active_relayer-Reaches :
        (address : String) (s : State svc.World)
        → Free s
        → Reaches Free (add_active_relayer svc address s)
    unfolding add_active_relayer
    add_active_relayer-Reaches address s h = take_back-Reaches _ _ s h

    Step-Free : {s t : State svc.World} → Step svc s t → Free s → Free t
    unfolding post_transaction_mined
    Step-Free (takes_back s a) h = Reaches-state Free _ (add_active_relayer-Reaches a s h)
    Step-Free (creates s n) h = Reaches-state Free _ (create_relayers-Reaches n s h)
    Step-Free (mined s a) h =
        settle-keeps svc Free (λ s w h. h) (λ s m g h. h) fund_relayers-Free _ _ s h
    Step-Free (funds s l) h = fund_relayers-Free l s h
    Step-Free _ h = h

    Reach-Free : {s t : State svc.World} → Reach svc s t → Free s → Free t
    Reach-Free here h = h
    Reach-Free (next r st) h = Step-Free st (Reach-Free r h)

    -- If every call for a balance or a nonce returns or throws, no sequence of calls of the manager
    -- leaves createRelayers or addActiveRelayer waiting: in every state that is reached from one with
    -- a free mutex, both return, whatever the services threw before, and the mutex is free again.
    pub Reach-returns :
        {s t : State svc.World}
        → Reach svc s t
        → s.create_relayer_mutex ≡ false
        → (n : ℕ) (address : String)
        → Reaches Free (create_relayers svc n t) × Reaches Free (add_active_relayer svc address t)
    Reach-returns r h n address =
        let free = Reach-Free r h in
        (create_relayers-Reaches n _ free, add_active_relayer-Reaches address _ free)
