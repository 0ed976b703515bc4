-- ===== src/Status/Relayers.antt =====
-- What the status page tells of the relayers.
use relayer_node.Base.{
  ℕ, zero, suc, ◌+◌, ◌<◌, ◌≤◌, String, ◌≡◌, refl, ◌↔◌, Bool, true, false, Option, none, some, List,
  [], ◌∷◌, ◌++◌, inl, inr, arith, str_eq, str_eq_refl, eq_iff, if◌then◌else◌, Bool-cases,
  Option-cases,
}
use relayer_node.Js.Dict.{Dict, lookup, keys}
use relayer_node.RelayerQueue
use relayer_node.RelayerQueue.{RelayerMetaData}
use relayer_node.RelayerQueue.Members.{occurrences, get-find, find-none, find-some}
use relayer_node.RelayerManager.State.{RelayerManager, Services}
use relayer_node.RelayerManager.Consistency.{present, copies, IsWellFormed}
use relayer_node.Status.{
  RelayerActivity, active, processing, RelayerStatus, entry_of, list_relayers, check_manager,
}

abbrev is_activity : RelayerActivity → RelayerActivity → Bool
is_activity active active = true
is_activity processing processing = true
is_activity _ _ = false

-- How many entries of an answer tell of this activity of the address.
unfoldable pub listed : RelayerActivity → String → List RelayerStatus → ℕ
listed activity a [] = 0
listed activity a (status ∷ statuses) =
    let rest = listed activity a statuses in
    if str_eq status.address a
    then (if is_activity activity status.status then suc rest else rest)
    else rest

key_count : String → List String → ℕ
key_count a [] = 0
key_count a (k ∷ ks) = if str_eq k a then suc (key_count a ks) else key_count a ks

key_count-of_present :
    {V : Type 0} (a : String) (d : Dict V) → present (lookup a d) ≡ 1 → 0 < key_count a (keys d)
unfolding key_count lookup
key_count-of_present a [] h = absurd (omega arith)
key_count-of_present a ((j, v) ∷ d) h = ground (arith, key_count-of_present a d)

-- The entries of an address, by where it is.
abbrev entries : RelayerActivity → Option RelayerMetaData → Option RelayerMetaData → ℕ
entries active none in_process = 0
entries active (some relayer) in_process = 1
entries processing none none = 0
entries processing none (some relayer) = 1
entries processing (some relayer) in_process = 0

-- e + … + e
repeated : ℕ → ℕ → ℕ
repeated e zero = 0
repeated e (suc n) = e + repeated e n

repeated-pos : (e n : ℕ) → 0 < repeated e n → 0 < e
unfolding repeated
repeated-pos zero zero h = h
repeated-pos zero (suc n) h = repeated-pos zero n (omega arith)
repeated-pos (suc e) n h = omega arith

pos-repeated : (e n : ℕ) → 0 < e → 0 < n → 0 < repeated e n
unfolding repeated
pos-repeated e zero h k = absurd (omega arith)
pos-repeated e (suc n) h k = omega arith

found_iff :
    (a : String) (items : List RelayerMetaData)
    → (0 < present (RelayerQueue.find a items)) ↔ (0 < occurrences a items)
found_iff a items = elim (Option-cases (RelayerQueue.find a items)) [
  | inl e ↦ rw (e, find-none a items e) ((λ h. h), λ h. h)
  | inr (r, e) ↦ rw e ((λ h. (find-some a items r e).1), λ h. omega arith)
]

processing_cases :
    (a : String) (items : List RelayerMetaData) (in_process : Option RelayerMetaData)
    → occurrences a items + present in_process ≤ 1
    → (0 < entries processing (RelayerQueue.find a items) in_process) ↔ (0 < present in_process)
processing_cases a items none h = elim (Option-cases (RelayerQueue.find a items)) [
  | inl e ↦ rw e ((λ h. h), λ h. h)
  | inr (r, e) ↦ rw e ((λ h. h), λ h. h)
]
processing_cases a items (some x) h = elim (Option-cases (RelayerQueue.find a items)) [
  | inl e ↦ rw e ((λ h. h), λ h. h)
  | inr (r, e) ↦ absurd (omega (arith, (find-some a items r e).1))
]

listed-append :
    (t : RelayerActivity) (a : String) (xs ys : List RelayerStatus)
    → listed t a (xs ++ ys) ≡ listed t a xs + listed t a ys
unfolding listed
listed-append t a [] ys = omega arith
listed-append t a (x ∷ xs) ys = ground (arith, listed-append t a xs ys)

module _ (last_updated : String) (m : RelayerManager) where
  listed-entry_of :
      (t : RelayerActivity) (a : String) (x y : Option RelayerMetaData)
      → listed t a (entry_of last_updated a x y) ≡ entries t x y
  unfolding listed
  listed-entry_of active a none none = refl
  listed-entry_of active a none (some r) = rw (str_eq_refl a) refl
  listed-entry_of active a (some r) y = rw (str_eq_refl a) refl
  listed-entry_of processing a none none = refl
  listed-entry_of processing a none (some r) = rw (str_eq_refl a) refl
  listed-entry_of processing a (some r) y = rw (str_eq_refl a) refl

  listed-entry_of_other :
      (t : RelayerActivity) (a b : String) (x y : Option RelayerMetaData)
      → str_eq b a ≡ false
      → listed t a (entry_of last_updated b x y) ≡ 0
  unfolding listed
  listed-entry_of_other t a b none none h = refl
  listed-entry_of_other t a b none (some r) h = rw h refl
  listed-entry_of_other t a b (some r) y h = rw h refl

  entries_of : RelayerActivity → String → ℕ
  entries_of t a =
      entries t (RelayerQueue.get m.relayer_queue a) (lookup a m.transaction_processing_relayer_map)

  listed-step :
      (t : RelayerActivity) (a k : String) (ks : List String)
      → listed t a (list_relayers last_updated m (k ∷ ks))
        ≡ (if str_eq k a then entries_of t a else 0) + listed t a (list_relayers last_updated m ks)
  unfolding list_relayers entries_of
  listed-step t a k ks = elim (Bool-cases (str_eq k a)) [
    | inl same ↦
        let e : k ≡ a = (eq_iff k a).0 same in
        rw (e, str_eq_refl a, listed-append t a, listed-entry_of t a) refl
    | inr other ↦ rw (other, listed-append t a, listed-entry_of_other t a k _ _ other) refl
  ]

  -- An address is listed as often as it is a key, if it is anywhere.
  listed-list_relayers :
      (t : RelayerActivity) (a : String) (ks : List String)
      → listed t a (list_relayers last_updated m ks) ≡ repeated (entries_of t a) (key_count a ks)
  unfolding listed list_relayers key_count repeated
  listed-list_relayers t a [] = refl
  listed-list_relayers t a (k ∷ ks) =
      ground (arith, listed-step t a k ks, listed-list_relayers t a ks)

  entries_of-active :
      (a : String) → entries_of active a ≡ present (RelayerQueue.get m.relayer_queue a)
  unfolding entries_of
  entries_of-active a = elim (Option-cases (RelayerQueue.get m.relayer_queue a)) [
    | inl e ↦ rw e refl
    | inr (r, e) ↦ rw e refl
  ]

  queued_iff : (a : String) → (0 < entries_of active a) ↔ (0 < occurrences a m.relayer_queue.items)
  queued_iff a =
      rw (entries_of-active a, get-find m.relayer_queue a) (found_iff a m.relayer_queue.items)

  -- Where no address is held twice, a relayer with a transaction is not in the queue.
  processing_iff :
      (a : String)
      → copies a m ≤ 1
      → (0 < entries_of processing a)
        ↔ (0 < present (lookup a m.transaction_processing_relayer_map))
  unfolding entries_of
  processing_iff a h =
      rw (get-find m.relayer_queue a)
        (processing_cases a m.relayer_queue.items (lookup a m.transaction_processing_relayer_map) h)

  module _ (svc : Services) (h : IsWellFormed svc m) (a : String) where
    listed_iff :
        (t : RelayerActivity)
        → (0 < entries_of t a → 0 < copies a m)
        → (0 < listed t a (check_manager last_updated m)) ↔ (0 < entries_of t a)
    unfolding check_manager
    listed_iff t held = rw (listed-list_relayers t a (keys m.relayer_map)) (
      (λ p. repeated-pos (entries_of t a) (key_count a (keys m.relayer_map)) p),
      λ p.
          pos-repeated (entries_of t a) (key_count a (keys m.relayer_map)) p
            (key_count-of_present a m.relayer_map (h.known a (omega (arith, held p)))),
    )

    -- For a manager in good order: the list of the status page tells of an address as active exactly
    -- when it stands in the queue, and as processing exactly when it has a transaction. A relayer that
    -- is in neither place is not listed.
    pub check_manager-listed :
        ((0 < listed active a (check_manager last_updated m))
          ↔ (0 < occurrences a m.relayer_queue.items))
        × ((0 < listed processing a (check_manager last_updated m))
            ↔ (0 < present (lookup a m.transaction_processing_relayer_map)))
    check_manager-listed =
        let q = queued_iff a in
        let p = processing_iff a (omega (arith, h.once a)) in
        let l = listed_iff active (λ x. omega (arith, q.0 x)) in
        let k = listed_iff processing (λ x. omega (arith, p.0 x)) in
        ((λ x. q.0 (l.0 x), λ x. l.1 (q.1 x)), (λ x. p.0 (k.0 x), λ x. k.1 (p.1 x)))
