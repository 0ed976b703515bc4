-- ===== src/RelayerQueue/Order.antt =====
-- What a push does to the order of the relayer queue.
use mathlib.Core.List.{Perm, perm_append_singleton}
use mathlib.Core.List.Perm
use relayer_node.Base.{
  ◌≤◌, ◌≡◌, List, some, [], ◌∷◌, ◌++◌, arith, IsOrdered, All, inl, inr, ap, subst, str_eq_refl,
}
use relayer_node.RelayerQueue.{pop}
use relayer_node.RelayerQueue.Members.{pop-Pops, occurrences, occurrences-push}
use relayer_node.Js.Sort.{sort-perm, sort-IsOrdered}
use relayer_node.RelayerQueue.{
  RelayerMetaData, RelayerQueue, compare_balance, sort_by_balance, push,
}

abbrev pub HasMoreBalance : RelayerMetaData → RelayerMetaData → Type 0
HasMoreBalance a b = b.balance ≤ a.balance

-- Whatever the balances have become since the last push, a push leaves the queue holding its
-- old entries and the new one, in descending order of balance.
pub push-IsOrdered :
    (q : RelayerQueue) (item : RelayerMetaData)
    → Perm (push q item).items (item ∷ q.items) × IsOrdered HasMoreBalance (push q item).items
unfolding push sort_by_balance
push-IsOrdered q item = (
  Perm.trans (sort-perm compare_balance (q.items ++ item ∷ []))
      (perm_append_singleton item q.items),
  sort-IsOrdered compare_balance {R = HasMoreBalance} (λ x y z h k. omega arith)
      (λ x y h. ground arith) (λ x y h. ground arith) (q.items ++ item ∷ []),
)

first_of_ordered :
    (r : RelayerMetaData) (rest items : List RelayerMetaData)
    → items ≡ r ∷ rest
    → IsOrdered HasMoreBalance items
    → All (HasMoreBalance r) rest
first_of_ordered r rest items e h = (subst (IsOrdered HasMoreBalance) e h).0

-- A pop after a push gives an entry of the queue or the pushed one, and no entry that stays has more
-- balance, whatever the order of the queue was before.
pub pop-push :
    (q : RelayerQueue) (item : RelayerMetaData)
    → (r : RelayerMetaData) × (rest : List RelayerMetaData) × (pop (push q item)
        ≡ (some r, record { items = rest }))
      × Perm (r ∷ rest) (item ∷ q.items)
      × All (HasMoreBalance r) rest
unfolding occurrences
pop-push q item = elim (pop-Pops (push q item)) [
  | inl (empty, p) ↦ absurd (
      ground (
        arith,
        ap (occurrences item.address) empty,
        occurrences-push item.address q item,
        str_eq_refl item.address,
      ))
  | inr (r, rest, e, p) ↦
      let (same, ordered) = push-IsOrdered q item in
      (
        r,
        rest,
        p,
        subst (λ items. Perm items (item ∷ q.items)) e same,
        first_of_ordered r rest (push q item).items e ordered,
      )
]
