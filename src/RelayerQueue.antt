-- ===== src/RelayerQueue.antt =====
-- relayer/src/services/relayer-queue: the queue of active relayers of one chain.
-- `pop` and `push` run under mutexes, so each is one step. A queue entry is a JavaScript object that
-- the relayer manager changes in place while it stands in the queue; `modify` is such a change.
pub mod Order
pub mod Members
pub mod Bag
use relayer_node.Base.{
  ℕ, String, Bool, true, false, Option, none, some, List, [], ◌∷◌, ◌++◌, arith, ℤ, pos, negsuc,
  ◌-ℤ◌, leb, str_eq, if◌then◌else◌, length,
}
use relayer_node.Js.Sort.{sort}

-- EVMRelayerMetaDataType. Nothing guards the pending count against falling below zero; balances
-- are BigNumbers of wei, which are never negative.
pub record RelayerMetaData : Type 0 where
  pub address : String
  pub nonce : ℕ
  pub pending_count : ℤ
  pub balance : ℕ

pub record RelayerQueue : Type 0 where
  pub items : List RelayerMetaData

-- (a, b) => (a.balance.gte(b.balance) ? -1 : 1)
abbrev pub compare_balance : RelayerMetaData → RelayerMetaData → ℤ
compare_balance a b = if leb b.balance a.balance then negsuc 0 else pos 1

-- SortEVMRelayerByBalance.performAlgorithm
unfoldable pub sort_by_balance : List RelayerMetaData → List RelayerMetaData
sort_by_balance relayer_map_data = sort compare_balance relayer_map_data

-- SortEVMRelayerByLeastPendingCount.performAlgorithm
unfoldable pub sort_by_least_pending_count : List RelayerMetaData → List RelayerMetaData
sort_by_least_pending_count relayer_map_data =
    sort (λ a b. a.pending_count -ℤ b.pending_count) relayer_map_data

unfoldable pub size : RelayerQueue → ℕ
size q = length q.items

abbrev pub list : RelayerQueue → List RelayerMetaData
list q = q.items

-- items.filter((item) => item.address === address)
unfoldable pub filter_address : String → List RelayerMetaData → List RelayerMetaData
filter_address address [] = []
filter_address address (item ∷ items) =
    if str_eq item.address address
    then item ∷ filter_address address items
    else filter_address address items

first : List RelayerMetaData → Option RelayerMetaData
first [] = none
first (item ∷ items) = some item

unfoldable pub get : RelayerQueue → String → Option RelayerMetaData
unfolding first filter_address
get q address = first (filter_address address q.items)

-- items.find((relayer) => relayer.address === address)
unfoldable pub find : String → List RelayerMetaData → Option RelayerMetaData
find address [] = none
find address (item ∷ items) = if str_eq item.address address then some item else find address items

shift : List RelayerMetaData → Option RelayerMetaData × List RelayerMetaData
shift [] = (none, [])
shift (item ∷ items) = (some item, items)

unfoldable pub pop : RelayerQueue → Option RelayerMetaData × RelayerQueue
unfolding shift
pop q = let (item, rest) = shift q.items in (item, record q { items = rest })

unfoldable pub push : RelayerQueue → RelayerMetaData → RelayerQueue
push q item = record q { items = sort_by_balance (q.items ++ item ∷ []) }

-- A write through a reference to the first entry of an address.
unfoldable pub modify :
    String → (RelayerMetaData → RelayerMetaData) → List RelayerMetaData → List RelayerMetaData
modify address f [] = []
modify address f (item ∷ items) =
    if str_eq item.address address then f item ∷ items else item ∷ modify address f items
