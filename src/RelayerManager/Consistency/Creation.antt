-- ===== src/RelayerManager/Consistency/Creation.antt =====
-- createRelayers keeps the manager well-formed: new relayers have new addresses.
use relayer_node.Base.{
  ℕ, zero, suc, ◌+◌, ◌<◌, String, ◌≡◌, refl, subst, ◌∙◌, Bool, true, false, none, some, List, [],
  ◌∷◌, arith, str_eq, eq_iff, length, inl, inr, Option-cases, Bool-cases,
}
use relayer_node.Js.Dict.{lookup, keys, lookup-insert, length-insert_new}
use relayer_node.Exec.{bind_cases, try_cases, gets_cases, returned_cases}
use relayer_node.Types.{Account}
use relayer_node.RelayerQueue.Members.{one_if, occurrences-push}
use relayer_node.RelayerManager.State.{
  RelayerManager, Services, State, acquire_create, release_create, get_relayers_count,
}
use relayer_node.RelayerManager.Create.{
  account_at, add_account, derive_relayers, push_relayer, enqueue_relayer, enqueue_relayers,
  enqueue_if, create_relayers,
}
use relayer_node.RelayerManager.Consistency.{HasDistinctAddresses, IsConsistent, IsConsistent-mono}

-- How often an address stands in a list of new accounts.
pub new_copies : List Account → String → ℕ
new_copies [] a = 0
new_copies (relayer ∷ relayers) a = one_if (str_eq relayer.public_key a) + new_copies relayers a

abbrev with_new : List Account → (String → ℕ) → String → ℕ
with_new relayers f a = new_copies relayers a + f a

module _ (svc : Services) where
  abbrev Holds : (String → ℕ) → State svc.World → Type 0
  Holds f s = IsConsistent svc f s.manager

  -- The account of the next index is not in the map yet.
  next_is_new :
      (f : String → ℕ) (m : RelayerManager) (relayer : Account)
      → HasDistinctAddresses svc m.relayer_seed
      → IsConsistent svc f m
      → account_at svc m.relayer_seed (length (keys m.relayer_map)) ≡ some relayer
      → lookup relayer.public_key m.relayer_map ≡ none
  next_is_new f m relayer distinct h e =
      elim (Option-cases (lookup relayer.public_key m.relayer_map)) [
        | inl free ↦ free
        | inr (old, taken) ↦
            let (i, below, at) = h.derived relayer.public_key old taken in
            absurd (
              omega (
                arith,
                distinct i (length (keys m.relayer_map)) old relayer at e
                    (h.account relayer.public_key old taken),
              ))
      ]

  add_account-IsConsistent :
      (f : String → ℕ) (m : RelayerManager) (relayer : Account)
      → IsConsistent svc f m
      → account_at svc m.relayer_seed (length (keys m.relayer_map)) ≡ some relayer
      → lookup relayer.public_key m.relayer_map ≡ none
      → IsConsistent svc (λ a. one_if (str_eq relayer.public_key a) + f a) (add_account relayer m)
  add_account-IsConsistent f m relayer h e free =
      let grown : length (keys m.relayer_map) < length (keys (add_account relayer m).relayer_map) =
        omega (arith, length-insert_new relayer.public_key relayer m.relayer_map free) in
      record {
        once = λ a. ground (arith, h.once a, h.known a, eq_iff relayer.public_key a, free);
        known = λ a p. ground (
          arith,
          h.known a,
          eq_iff relayer.public_key a,
          lookup-insert relayer.public_key a relayer m.relayer_map,
        );
        keyed = h.keyed;
        account = λ a r p. ground (
          arith,
          h.account a r,
          eq_iff relayer.public_key a,
          lookup-insert relayer.public_key a relayer m.relayer_map,
        );
        derived = λ a r p. elim (Bool-cases (str_eq relayer.public_key a)) [
          | inl same ↦
              (length (keys m.relayer_map), grown, e ∙ ground (arith, rw lookup-insert at p))
          | inr other ↦
              let (i, below, at) = h.derived a r (ground (arith, rw lookup-insert at p)) in
              (i, omega (arith, grown), at)
        ];
      }

  derive_relayers-IsConsistent :
      (n index : ℕ) (f : String → ℕ) (m : RelayerManager)
      → index ≡ length (keys m.relayer_map)
      → HasDistinctAddresses svc m.relayer_seed
      → IsConsistent svc f m
      → IsConsistent svc
          (with_new (derive_relayers svc n index m).1 f)
          (derive_relayers svc n index m).0
  unfolding derive_relayers new_copies
  derive_relayers-IsConsistent zero index f m e distinct h =
      IsConsistent-mono svc f _ (λ a. omega arith) h
  derive_relayers-IsConsistent (suc n) index f m e distinct h =
      elim (Option-cases (account_at svc m.relayer_seed index)) [
        | inl failed ↦ rw (failed, derive_relayers) (IsConsistent-mono svc f _ (λ a. omega arith) h)
        | inr (relayer, derived) ↦
            let at = subst (λ i. account_at svc m.relayer_seed i ≡ some relayer) e derived in
            let free = next_is_new f m relayer distinct h at in
            let grown : suc index ≡ length (keys (add_account relayer m).relayer_map) =
              omega (arith, e, length-insert_new relayer.public_key relayer m.relayer_map free) in
            rw (derived, derive_relayers)
              (IsConsistent-mono svc _ _ (λ a. omega arith)
                (derive_relayers-IsConsistent n (suc index)
                  (λ a. one_if (str_eq relayer.public_key a) + f a) (add_account relayer m) grown
                  distinct (add_account-IsConsistent f m relayer h at free)))
      ]

  push_relayer-IsConsistent :
      (f : String → ℕ) (m : RelayerManager) (relayer : Account) (nonce balance : ℕ)
      → IsConsistent svc (with_new (relayer ∷ []) f) m
      → IsConsistent svc f (push_relayer relayer nonce balance m)
  unfolding new_copies
  push_relayer-IsConsistent f m relayer nonce balance h = record {
    once = λ a. omega (arith, h.once a, occurrences-push a m.relayer_queue _);
    known = λ a p. h.known a (omega (arith, occurrences-push a m.relayer_queue _));
    keyed = h.keyed;
    account = h.account;
    derived = h.derived;
  }

  enqueue_relayer-IsConsistent :
      (f : String → ℕ) (relayer : Account) (s : State svc.World)
      → IsConsistent svc (with_new (relayer ∷ []) f) s.manager
      → IsConsistent svc f (enqueue_relayer svc relayer s).1.manager
  unfolding enqueue_relayer
  enqueue_relayer-IsConsistent f relayer s h =
      let dropped = IsConsistent-mono svc _ f (λ a. omega arith) h in
      try_cases (Holds f) _ _ _
        (bind_cases (Holds f) _ _ _ dropped (λ balance. bind_cases (Holds f) _ _ _ dropped (λ nonce.
          let pushed = push_relayer-IsConsistent f s.manager relayer nonce balance h in
          bind_cases (Holds f) _ _ _ pushed (λ _. pushed))))
        (λ e kept. kept)

  enqueue_relayers-IsConsistent :
      (f : String → ℕ) (relayers : List Account) (s : State svc.World)
      → Holds (with_new relayers f) s
      → Holds f (enqueue_relayers svc relayers s).1
  unfolding enqueue_relayers new_copies
  enqueue_relayers-IsConsistent f [] s h = IsConsistent-mono svc _ f (λ a. omega arith) h
  enqueue_relayers-IsConsistent f (relayer ∷ relayers) s h =
      let step =
        enqueue_relayer-IsConsistent (with_new relayers f) relayer s
          (IsConsistent-mono svc _ _ (λ a. unfold new_copies in omega arith) h) in
      bind_cases (Holds f) _ _ _
        (IsConsistent-mono svc (with_new relayers f) f (λ a. omega arith) step)
        (λ added.
          bind_cases (Holds f) _ _ _ (enqueue_relayers-IsConsistent f relayers _ step)
            (λ rest. enqueue_relayers-IsConsistent f relayers _ step))

  enqueue_if-IsConsistent :
      (f : String → ℕ) (finished : Bool) (relayers : List Account) (s : State svc.World)
      → Holds (with_new relayers f) s
      → Holds f (enqueue_if svc finished relayers s).1
  unfolding enqueue_if
  enqueue_if-IsConsistent f true relayers s h = enqueue_relayers-IsConsistent f relayers s h
  enqueue_if-IsConsistent f false relayers s h = IsConsistent-mono svc _ f (λ a. omega arith) h

  manager-acquire_create : (s : State svc.World) → (acquire_create s).1.manager ≡ s.manager
  unfolding acquire_create
  manager-acquire_create s = ground arith

  -- Creating relayers keeps every relayer in one place at most, whatever the services answer: an address
  -- that is new enters the queue at most once, and no address that is there already is added again.
  pub create_relayers-IsConsistent :
      (f : String → ℕ) (n : ℕ) (s : State svc.World)
      → HasDistinctAddresses svc s.manager.relayer_seed
      → IsConsistent svc f s.manager
      → IsConsistent svc f (create_relayers svc n s).1.manager
  unfolding create_relayers release_create get_relayers_count
  create_relayers-IsConsistent f n s distinct h =
      let entered = (acquire_create s).1 in
      let before : Holds f entered = rw (manager-acquire_create s) h in
      let distinct' : HasDistinctAddresses svc entered.manager.relayer_seed =
        rw (manager-acquire_create s) distinct in
      let derived = derive_relayers-IsConsistent n _ f entered.manager refl distinct' before in
      let enqueued = enqueue_if-IsConsistent f _ _ _ derived in
      bind_cases (Holds f) acquire_create _ s before (λ _. gets_cases (Holds f) _ _ _ (
        returned_cases (Holds f) _ _ _ _ (
          bind_cases (Holds f) _ _ _ enqueued
            (λ addresses. returned_cases (Holds f) _ _ _ _ enqueued))))
