-- ===== src/RelayerQueue/Bag.antt =====
-- The relayer queue as its clients see it: a bag of relayers, in no order, from which the relayer with
-- the most balance is taken.
use mathlib.Core.List.{Perm, foldr}
use mathlib.Core.List.Perm
use mathlib.Core.Option.{some-injective}
use mathlib.Core.Quot
use mathlib.Core.Quot.{Quot, Quot-set}
use native.Mathlib.Nat.{ℕ_set}
use relayer_node.Base.{
  ℕ, suc, ◌≤◌, ◌<◌, ◌≡◌, refl, ap, sym, ◌∙◌, subst, Option, none, some, List, [], ◌∷◌, leb, length,
  arith, inl, inr, if◌then◌else◌, All,
}
use relayer_node.RelayerQueue.{RelayerMetaData, RelayerQueue, push, pop, size}
use relayer_node.RelayerQueue.Members.{pop-Pops}
use relayer_node.RelayerQueue.Order.{HasMoreBalance, push-IsOrdered, pop-push}

abbrev Bag : Type 0
Bag = Quot (Perm {A = RelayerMetaData})

unfoldable put : RelayerMetaData → Bag → Bag
put r = Quot.lift Quot-set (λ rs. Quot.mk (r ∷ rs)) (λ rs qs h. Quot.sound (Perm.cons r h))

-- A number that each relayer of the bag adds to, in whatever order.
unfoldable fold :
    (f : RelayerMetaData → ℕ → ℕ)
    → ((r q : RelayerMetaData) (n : ℕ) → f r (f q n) ≡ f q (f r n))
    → Bag
    → ℕ
fold f comm = Quot.lift ℕ_set (foldr f 0) (λ rs qs h. Perm.foldr-eq ℕ_set f comm h 0)

abbrev larger : RelayerMetaData → ℕ → ℕ
larger r n = if leb n r.balance then r.balance else n

larger_comm : (r q : RelayerMetaData) (n : ℕ) → larger r (larger q n) ≡ larger q (larger r n)
larger_comm r q n = ground arith

-- The greatest balance in the bag, and how many relayers are in it.
unfoldable top : Bag → ℕ
top = fold larger larger_comm

unfoldable count : Bag → ℕ
count = fold (λ r n. suc n) (λ r q n. refl)

unfoldable view : RelayerQueue → Bag
view q = Quot.mk q.items

-- What the queue promises: `push` puts a relayer in, `pop` takes one out unless there is none, and the
-- one that is taken after a push has at least the balance of every relayer that stays.
record BagLaws (Queue : Type 0) (push : Queue → RelayerMetaData → Queue)
    (pop : Queue → Option RelayerMetaData × Queue) (size : Queue → ℕ) (view : Queue → Bag)
    : Type 0 where
  view-push : (q : Queue) (r : RelayerMetaData) → view (push q r) ≡ put r (view q)
  pop-of_none : (q : Queue) → count (view q) ≡ 0 → pop q ≡ (none, q)
  pop-of_some :
      (q : Queue)
      → 0 < count (view q)
      → (r : RelayerMetaData) × ((pop q).0 ≡ some r) × (put r (view (pop q).1) ≡ view q)
  pop-push_greatest :
      (q : Queue) (r s : RelayerMetaData)
      → (pop (push q r)).0 ≡ some s
      → top (view (pop (push q r)).1) ≤ s.balance
  size-view : (q : Queue) → size q ≡ count (view q)

top-le :
    (r : RelayerMetaData) (rs : List RelayerMetaData)
    → All (HasMoreBalance r) rs
    → foldr larger 0 rs ≤ r.balance
top-le r [] h = omega arith
top-le r (q ∷ rs) h = ground (arith, top-le r rs h.1)

length-count : (rs : List RelayerMetaData) → length rs ≡ foldr (λ r n. suc n) 0 rs
length-count [] = refl
length-count (r ∷ rs) = ap suc (length-count rs)

-- The relayer queue is a bag of relayers that gives out the richest: push puts a relayer in, pop takes
-- one out unless there is none, the size is the number of relayers in the bag, and a pop after a push
-- takes a relayer with at least the balance of each that stays, whatever the balances have become.
relayer_queue-BagLaws : BagLaws RelayerQueue push pop size view
unfolding view put top count fold size
relayer_queue-BagLaws = record {
  view-push = λ q r. Quot.sound (push-IsOrdered q r).0;
  pop-of_none = λ q none_left. elim (pop-Pops q) [
    | inl (empty, p) ↦ p
    | inr (r, rest, front, p) ↦ absurd (omega (arith, ap (foldr (λ r n. suc n) 0) front, none_left))
  ];
  pop-of_some = λ q some_left. elim (pop-Pops q) [
    | inl (empty, p) ↦ absurd (omega (arith, ap (foldr (λ r n. suc n) 0) empty, some_left))
    | inr (r, rest, front, p) ↦
        (r, ap (λ t. t.0) p, ap (λ t. put r (view t.1)) p ∙ sym (ap Quot.mk front))
  ];
  pop-push_greatest = λ q r s taken.
      let (t, rest, popped, same, greatest) = pop-push q r in
      let same_relayer : t ≡ s = some-injective t s (sym (ap (λ p. p.0) popped) ∙ taken) in
      subst (λ p. top (view p.1) ≤ s.balance) (sym popped)
        (subst (λ u. foldr larger 0 rest ≤ u.balance) same_relayer (top-le t rest greatest));
  size-view = λ q. length-count q.items;
}
