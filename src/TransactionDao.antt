-- ===== src/TransactionDao.antt =====
-- common/db/dao/TransactionDAO.ts: the rows of the transactions of one chain, in a Mongo collection.
use relayer_node.Base.{
  ℕ, String, Bool, true, false, ◌&&◌, Option, none, some, List, [], ◌∷◌, ◌++◌, str_eq, ◌≡◌,
  if◌then◌else◌, refl, inl, inr, Bool-cases,
}
use relayer_node.Exec.{Exec, returned}
use relayer_node.Types.{TransactionType, TransactionStatus, TransactionResponse, TransactionReceipt}

-- IBlockchainTransaction: a row, or the fields that an update sets.
pub record TransactionData : Type 0 where
  pub transaction_id : Option String
  pub transaction_type : Option TransactionType
  pub transaction_hash : Option String
  pub previous_transaction_hash : Option String
  pub status : Option TransactionStatus
  pub raw_transaction : Option TransactionResponse
  pub chain_id : Option ℕ
  pub gas_price : Option ℕ
  pub receipt : Option TransactionReceipt
  pub relayer_address : Option String
  pub wallet_address : Option String
  pub meta_data : Option String
  pub resubmitted : Option Bool
  pub creation_time : Option ℕ
  pub updation_time : Option ℕ

-- The fields that a row has with no value.
abbrev pub no_data : TransactionData
no_data = record {
  transaction_id = none;
  transaction_type = none;
  transaction_hash = none;
  previous_transaction_hash = none;
  status = none;
  raw_transaction = none;
  chain_id = none;
  gas_price = none;
  receipt = none;
  relayer_address = none;
  wallet_address = none;
  meta_data = none;
  resubmitted = none;
  creation_time = none;
  updation_time = none;
}

-- The condition of a query: the id, and the hash where one is given.
pub record Filter : Type 0 where
  pub transaction_id : String
  pub transaction_hash : Option String

-- A Mongo collection, by the package mongoose. `find_latest` is find with sort({ _id: -1 }).
pub record Collection : Type 1 where
  pub Database : Type 0
  pub insert_many : List TransactionData → Exec Database (Unit {0})
  pub update_one : Filter → TransactionData → Exec Database (Unit {0})
  pub find_latest : Filter → Exec Database (List TransactionData)

module _ (collection : Collection) where
  open collection use {Database}

  unfoldable pub dao_save : TransactionData → Exec Database (Unit {0})
  dao_save transaction_data = collection.insert_many (transaction_data ∷ [])

  unfoldable pub update_by_transaction_id : String → TransactionData → Exec Database (Unit {0})
  update_by_transaction_id id update =
      collection.update_one (record { transaction_id = id; transaction_hash = none }) update

  unfoldable pub get_by_transaction_id : String → Exec Database (List TransactionData)
  get_by_transaction_id id =
      collection.find_latest (record { transaction_id = id; transaction_hash = none })

  unfoldable pub update_by_transaction_id_and_transaction_hash :
      (id hash : String) → TransactionData → Exec Database (Unit {0})
  update_by_transaction_id_and_transaction_hash id hash update =
      collection.update_one (record { transaction_id = id; transaction_hash = some hash }) update

-- What Mongo documents: the rows in the order in which they were inserted.
abbrev pub agrees : String → Option String → Bool
agrees text none = false
agrees text (some other) = str_eq text other

abbrev pub agrees_if : Option String → Option String → Bool
agrees_if none field = true
agrees_if (some text) field = agrees text field

abbrev pub satisfies : Filter → TransactionData → Bool
satisfies f row =
    agrees f.transaction_id row.transaction_id && agrees_if f.transaction_hash row.transaction_hash

abbrev or_else {ℓ} : {A : Type ℓ} → Option A → Option A → Option A
or_else none old = old
or_else (some new) old = some new

-- $set: the fields with a value replace the row's.
abbrev pub set_fields : TransactionData → TransactionData → TransactionData
set_fields u row = record {
  transaction_id = or_else u.transaction_id row.transaction_id;
  transaction_type = or_else u.transaction_type row.transaction_type;
  transaction_hash = or_else u.transaction_hash row.transaction_hash;
  previous_transaction_hash = or_else u.previous_transaction_hash row.previous_transaction_hash;
  status = or_else u.status row.status;
  raw_transaction = or_else u.raw_transaction row.raw_transaction;
  chain_id = or_else u.chain_id row.chain_id;
  gas_price = or_else u.gas_price row.gas_price;
  receipt = or_else u.receipt row.receipt;
  relayer_address = or_else u.relayer_address row.relayer_address;
  wallet_address = or_else u.wallet_address row.wallet_address;
  meta_data = or_else u.meta_data row.meta_data;
  resubmitted = or_else u.resubmitted row.resubmitted;
  creation_time = or_else u.creation_time row.creation_time;
  updation_time = or_else u.updation_time row.updation_time;
}

-- The first row that satisfies the filter is changed, if there is one.
unfoldable pub update_first : Filter → TransactionData → List TransactionData → List TransactionData
update_first f update [] = []
update_first f update (row ∷ rows) =
    if satisfies f row then set_fields update row ∷ rows else row ∷ update_first f update rows

-- The rows that satisfy the filter, the latest first.
unfoldable pub latest_first : Filter → List TransactionData → List TransactionData
latest_first f [] = []
latest_first f (row ∷ rows) =
    let rest = latest_first f rows in if satisfies f row then rest ++ row ∷ [] else rest

pub record CollectionLaws (c : Collection) : Type 0 where
  pub rows : c.Database → List TransactionData
  pub insert_many-rows :
      (new : List TransactionData) (w : c.Database)
      → ((c.insert_many new w).0 ≡ returned tt) × (rows (c.insert_many new w).1 ≡ rows w ++ new)
  pub update_one-rows :
      (f : Filter) (update : TransactionData) (w : c.Database)
      → ((c.update_one f update w).0 ≡ returned tt)
        × (rows (c.update_one f update w).1 ≡ update_first f update (rows w))
  pub find_latest-rows :
      (f : Filter) (w : c.Database)
      → ((c.find_latest f w).0 ≡ returned (latest_first f (rows w)))
        × (rows (c.find_latest f w).1 ≡ rows w)

pub latest_first-append :
    (f : Filter) (rows : List TransactionData) (row : TransactionData)
    → satisfies f row ≡ true
    → latest_first f (rows ++ row ∷ []) ≡ row ∷ latest_first f rows
unfolding latest_first
latest_first-append f [] row h = rw h refl
latest_first-append f (first ∷ rows) row h =
    rw (latest_first-append f rows row h)
      (elim (Bool-cases (satisfies f first)) [ inl e ↦ rw e refl | inr e ↦ rw e refl ])
