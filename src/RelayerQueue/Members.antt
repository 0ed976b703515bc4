-- ===== src/RelayerQueue/Members.antt =====
-- How often an address stands in the relayer queue, and where the queue's best entry is.
use relayer_node.Base.{
  ℕ, suc, ◌+◌, ◌<◌, String, ◌≡◌, refl, Bool, true, false, none, some, List, [], ◌∷◌, ◌++◌, arith,
  str_eq, eq_iff, if◌then◌else◌, ◌⊎◌, inl, inr,
}
use relayer_node.Js.Sort.{insert_by, sort_onto, sort}
use relayer_node.RelayerQueue.{
  RelayerMetaData, RelayerQueue, compare_balance, sort_by_balance, first, filter_address, get, find,
  pop, push, modify,
}

unfoldable pub occurrences : String → List RelayerMetaData → ℕ
occurrences a [] = 0
occurrences a (item ∷ items) =
    if str_eq item.address a then suc (occurrences a items) else occurrences a items

abbrev pub one_if : Bool → ℕ
one_if true = 1
one_if false = 0

occurrences-insert_by :
    (a : String) (x : RelayerMetaData) (ys : List RelayerMetaData)
    → occurrences a (insert_by compare_balance x ys)
      ≡ one_if (str_eq x.address a) + occurrences a ys
unfolding occurrences insert_by
occurrences-insert_by a x [] = ground arith
occurrences-insert_by a x (y ∷ ys) = ground (arith, occurrences-insert_by a x ys)

occurrences-sort_onto :
    (a : String) (acc xs : List RelayerMetaData)
    → occurrences a (sort_onto compare_balance acc xs) ≡ occurrences a acc + occurrences a xs
unfolding occurrences sort_onto
occurrences-sort_onto a acc [] = omega arith
occurrences-sort_onto a acc (x ∷ xs) = ground (
  arith,
  occurrences-insert_by a x acc,
  occurrences-sort_onto a (insert_by compare_balance x acc) xs,
)

occurrences-append :
    (a : String) (xs ys : List RelayerMetaData)
    → occurrences a (xs ++ ys) ≡ occurrences a xs + occurrences a ys
unfolding occurrences
occurrences-append a [] ys = omega arith
occurrences-append a (x ∷ xs) ys = ground (arith, occurrences-append a xs ys)

pub occurrences-push :
    (a : String) (q : RelayerQueue) (item : RelayerMetaData)
    → occurrences a (push q item).items ≡ one_if (str_eq item.address a) + occurrences a q.items
unfolding push sort_by_balance sort occurrences
occurrences-push a q item = ground (
  arith,
  occurrences-sort_onto a [] (q.items ++ item ∷ []),
  occurrences-append a q.items (item ∷ []),
)

pub occurrences-modify :
    (a b : String) (f : RelayerMetaData → RelayerMetaData) (items : List RelayerMetaData)
    → ((r : RelayerMetaData) → (f r).address ≡ r.address)
    → occurrences a (modify b f items) ≡ occurrences a items
unfolding occurrences modify
occurrences-modify a b f [] h = refl
occurrences-modify a b f (x ∷ xs) h = ground (arith, h x, occurrences-modify a b f xs h)

pub find-none :
    (a : String) (items : List RelayerMetaData) → find a items ≡ none → occurrences a items ≡ 0
unfolding find occurrences
find-none a [] h = refl
find-none a (x ∷ xs) h = ground (arith, find-none a xs)

pub find-some :
    (a : String) (items : List RelayerMetaData) (r : RelayerMetaData)
    → find a items ≡ some r
    → (r.address ≡ a) × (0 < occurrences a items)
unfolding find occurrences
find-some a [] r h = cc
find-some a (x ∷ xs) r h = ground (arith, eq_iff x.address a, find-some a xs r)

-- A pop fails on the empty queue only, and otherwise takes the first entry.
abbrev pub Pops : RelayerQueue → Type 0
Pops q =
    ((q.items ≡ []) × (pop q ≡ (none, q)))
    ⊎ ((item : RelayerMetaData) × (rest : List RelayerMetaData) × (q.items ≡ item ∷ rest)
        × (pop q ≡ (some item, record { items = rest })))

Pops-from : (items : List RelayerMetaData) → Pops (record { items = items })
unfolding pop
Pops-from [] = inl (refl, refl)
Pops-from (item ∷ rest) = inr (item, rest, refl, refl)

pub pop-Pops : (q : RelayerQueue) → Pops q
pop-Pops q = Pops-from q.items

-- `get` and `find` give the same entry.
get_from :
    (a : String) (items : List RelayerMetaData) → get (record { items = items }) a ≡ find a items
unfolding get find first filter_address
get_from a [] = refl
get_from a (x ∷ xs) = ground (arith, get_from a xs)

pub get-find : (q : RelayerQueue) (a : String) → get q a ≡ find a q.items
get-find q a = get_from a q.items
