-- ===== src/RelayerManager/Consistency.antt =====
-- Where the relayers of a manager are: in the queue, or with a transaction.
pub mod Creation
pub mod Steps
use relayer_node.Base.{
  ℕ, suc, ◌+◌, ◌≤◌, ◌<◌, String, ◌≡◌, refl, Bool, Option, none, some, List, [], ◌∷◌, arith, str_eq,
  eq_iff, if◌then◌else◌, length,
}
use relayer_node.Js.Dict.{Dict, lookup, keys}
use relayer_node.Types.{Account}
use relayer_node.RelayerQueue.{RelayerMetaData}
use relayer_node.RelayerQueue.Members.{occurrences, one_if}
use relayer_node.RelayerManager.State.{RelayerManager, Services}
use relayer_node.RelayerManager.Create.{account_at}

abbrev pub present {ℓ} : {A : Type ℓ} → Option A → ℕ
present none = 0
present (some a) = 1

-- How often the address stands in the queue or the processing map.
abbrev pub copies : String → RelayerManager → ℕ
copies a m =
    occurrences a m.relayer_queue.items + present (lookup a m.transaction_processing_relayer_map)

-- Different indices of the seed give different addresses.
abbrev pub HasDistinctAddresses : Services → String → Type 0
HasDistinctAddresses svc seed =
    (i j : ℕ) (a b : Account)
    → account_at svc seed i ≡ some a
    → account_at svc seed j ≡ some b
    → a.public_key ≡ b.public_key
    → i ≡ j

-- `extra` counts the relayers that createRelayers has made and not yet put into the queue.
pub record IsConsistent (svc : Services) (extra : String → ℕ) (m : RelayerManager) : Type 0 where
  -- No address is held twice.
  pub once : (a : String) → extra a + copies a m ≤ 1
  -- What is held has an account.
  pub known : (a : String) → 0 < extra a + copies a m → present (lookup a m.relayer_map) ≡ 1
  pub keyed :
      (a : String) (r : RelayerMetaData)
      → lookup a m.transaction_processing_relayer_map ≡ some r
      → r.address ≡ a
  pub account :
      (a : String) (relayer : Account)
      → lookup a m.relayer_map ≡ some relayer
      → relayer.public_key ≡ a
  -- The accounts are those of the first indices of the seed.
  pub derived :
      (a : String) (relayer : Account)
      → lookup a m.relayer_map ≡ some relayer
      → (i : ℕ) × (i < length (keys m.relayer_map))
        × (account_at svc m.relayer_seed i ≡ some relayer)

abbrev pub nothing : String → ℕ
nothing a = 0

-- No relayer is in two places: it stands in the queue, or in the processing map, or in neither.
abbrev pub IsWellFormed : Services → RelayerManager → Type 0
IsWellFormed svc m = IsConsistent svc nothing m

module _ (svc : Services) {m : RelayerManager} where
  -- Fewer relayers on the way are consistent too.
  pub IsConsistent-mono :
      (f g : String → ℕ) → ((a : String) → g a ≤ f a) → IsConsistent svc f m → IsConsistent svc g m
  IsConsistent-mono f g le h = record {
    once = λ a. omega (arith, le a, h.once a);
    known = λ a p. h.known a (omega (arith, le a));
    keyed = h.keyed;
    account = h.account;
    derived = h.derived;
  }
