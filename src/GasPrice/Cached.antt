-- ===== src/GasPrice/Cached.antt =====
-- The gas prices in the cache, as GasPrice sets and reads them.
use Prim.Native.Char.{code}
use Prim.Native.String.{[], ◌∷◌}
use relayer_node.Base.{
  ℕ, ◌<◌, String, ◌≡◌, ◌∙◌, refl, ap, Bool, true, false, not, ◌||◌, some, str_eq, ◌≢◌, eq_iff,
  arith, inl, inr, Bool-cases,
}
use text.Mathlib.TextLemmas.{cons-append}
use relayer_node.Js.Text.{◌&◌}
use relayer_node.Exec.{returned, ◌>>=◌}
use relayer_node.Types.{GasPriceType, NetworkBasedGasPrice, legacy, eip1559}
use relayer_node.Cache.Laws.{CacheLaws, written-here}
use relayer_node.Backend.{Backend, State}
use relayer_node.GasPrice.{
  includes_chain, get_gas_price_key, get_max_fee_per_gas_key, get_max_priority_fee_gas_key,
  set_gas_price, get_gas_price_for_simulation, get_max_fee_gas_price,
  get_max_priority_fee_gas_price, get_pair, get_legacy, get_gas_price,
}

-- An empty text is no price.
abbrev pub is_given : NetworkBasedGasPrice → Bool
is_given (legacy price) = not (str_eq price "")
is_given (eip1559 priority fee) = not (str_eq fee "" || str_eq priority "")

-- Whether the price is of the form that the chain uses.
abbrev pub is_of_form : Bool → NetworkBasedGasPrice → Bool
is_of_form pairs (legacy price) = not pairs
is_of_form pairs (eip1559 priority fee) = pairs

-- The code of the fourth character, which tells the keys of the two fees apart.
fourth : String → ℕ
fourth (_ ∷ _ ∷ _ ∷ c ∷ s) = code c
fourth _ = 0

fourth-append : (s t : String) → 0 < fourth s → fourth (s & t) ≡ fourth s
unfolding fourth
fourth-append (x ∷ y ∷ z ∷ c ∷ s) t h =
    rw
      (
        cons-append x (y ∷ z ∷ c ∷ s) t,
        cons-append y (z ∷ c ∷ s) t,
        cons-append z (c ∷ s) t,
        cons-append c s t,
      )
      refl
fourth-append (x ∷ y ∷ z ∷ []) t h = absurd (omega arith)
fourth-append (x ∷ y ∷ []) t h = absurd (omega arith)
fourth-append (x ∷ []) t h = absurd (omega arith)
fourth-append [] t h = absurd (omega arith)

of_not : (x : Bool) → not x ≡ true → x ≡ false
of_not true h = ground arith
of_not false h = refl

module _ (b : Backend) (laws : CacheLaws b.cache) where
  abbrev pub is_eip1559 : Bool
  is_eip1559 = includes_chain b.eip1559_supported_networks b.chain_id

  after_write :
      (key value : String) (s : State b)
      → laws.view (b.cache.set key value s.cache).1 key ≡ some value
  after_write key value s =
      (laws.set-view key value s.cache).1 key ∙ written-here key (some value) (laws.view s.cache)

  keys_differ :
      (type : GasPriceType) → get_max_priority_fee_gas_key b type ≢ get_max_fee_per_gas_key b type
  unfolding get_max_priority_fee_gas_key get_max_fee_per_gas_key fourth
  keys_differ type e = omega (
    arith,
    ap fourth e,
    fourth-append "MaxPriorityFeeGas_" _ (omega arith),
    fourth-append "MaxFeeGas_" _ (omega arith),
  )

  keys_differ_bool :
      (type : GasPriceType)
      → str_eq (get_max_priority_fee_gas_key b type) (get_max_fee_per_gas_key b type) ≡ false
  keys_differ_bool type =
      elim (Bool-cases
        (str_eq (get_max_priority_fee_gas_key b type) (get_max_fee_per_gas_key b type))) [
          | inl e ↦ absurd (keys_differ type ((eq_iff _ _).0 e))
          | inr e ↦ e
        ]

  get_legacy-of_view :
      (type : GasPriceType) (price : String) (t : State b)
      → laws.view t.cache (get_gas_price_key b type) ≡ some price
      → str_eq price "" ≡ false
      → let r = get_legacy b type t in (r.0 ≡ returned (legacy price)) × (r.1.network ≡ t.network)
  unfolding get_legacy get_gas_price_for_simulation ◌>>=◌
  get_legacy-of_view type price t there given =
      rw ((laws.get-view (get_gas_price_key b type) t.cache).0, there, given) (refl, refl)

  get_pair-of_view :
      (type : GasPriceType) (priority fee : String) (t : State b)
      → laws.view t.cache (get_max_fee_per_gas_key b type) ≡ some fee
      → laws.view t.cache (get_max_priority_fee_gas_key b type) ≡ some priority
      → (str_eq fee "" || str_eq priority "") ≡ false
      → let r = get_pair b type t in
        (r.0 ≡ returned (eip1559 priority fee)) × (r.1.network ≡ t.network)
  unfolding get_pair get_max_fee_gas_price get_max_priority_fee_gas_price ◌>>=◌
  get_pair-of_view type priority fee t fee_there priority_there given =
      let fee_key = get_max_fee_per_gas_key b type in
      let key = get_max_priority_fee_gas_key b type in
      rw
        (
          (laws.get-view fee_key t.cache).0,
          fee_there,
          (laws.get-view key (b.cache.get fee_key t.cache).1).0,
          (laws.get-view fee_key t.cache).1 key,
          priority_there,
          given,
        )
        (refl, refl)

  write_lem :
      (key value : String) (s : State b)
      → b.cache.set key value s.cache ≡ (returned true, (b.cache.set key value s.cache).1)
  write_lem key value s = rw ((laws.set-view key value s.cache).0) refl

  pub set_legacy_lem :
      (type : GasPriceType) (price : String) (s : State b)
      → set_gas_price b type (legacy price) s ≡ (
        returned tt,
        record s { cache = (b.cache.set (get_gas_price_key b type) price s.cache).1 },
      )
  unfolding set_gas_price ◌>>=◌
  set_legacy_lem type price s = rw (write_lem (get_gas_price_key b type) price s) refl

  -- The cache after both fees have been set.
  abbrev both : GasPriceType → (priority fee : String) → b.cache.Cache → b.cache.Cache
  both type priority fee w =
      (b.cache.set (get_max_priority_fee_gas_key b type) priority
        (b.cache.set (get_max_fee_per_gas_key b type) fee w).1).1

  set_pair_lem :
      (type : GasPriceType) (priority fee : String) (s : State b)
      → set_gas_price b type (eip1559 priority fee) s
        ≡ (returned tt, record s { cache = both type priority fee s.cache })
  unfolding set_gas_price ◌>>=◌
  set_pair_lem type priority fee s =
      rw
        (
          (laws.set-view (get_max_fee_per_gas_key b type) fee s.cache).0,
          (laws.set-view (get_max_priority_fee_gas_key b type) priority
              (b.cache.set (get_max_fee_per_gas_key b type) fee s.cache).1).0,
        )
        refl

  fee_there :
      (type : GasPriceType) (priority fee : String) (s : State b)
      → laws.view (both type priority fee s.cache) (get_max_fee_per_gas_key b type) ≡ some fee
  fee_there type priority fee s =
      (laws.set-view (get_max_priority_fee_gas_key b type) priority
          (b.cache.set (get_max_fee_per_gas_key b type) fee s.cache).1).1
        (get_max_fee_per_gas_key b type)
      ∙ rw (keys_differ_bool type) (after_write (get_max_fee_per_gas_key b type) fee s)

  priority_there :
      (type : GasPriceType) (priority fee : String) (s : State b)
      → laws.view (both type priority fee s.cache) (get_max_priority_fee_gas_key b type)
        ≡ some priority
  priority_there type priority fee s =
      after_write (get_max_priority_fee_gas_key b type) priority
        (record s { cache = (b.cache.set (get_max_fee_per_gas_key b type) fee s.cache).1 })

  -- A gas price that is set, of the form that the chain uses and not empty, is the one that
  -- getGasPrice gives from then on, and the network is not asked for it.
  get_gas_price-set_gas_price :
      (type : GasPriceType) (price : NetworkBasedGasPrice) (s : State b)
      → is_given price ≡ true
      → is_of_form is_eip1559 price ≡ true
      → let r = get_gas_price b type (set_gas_price b type price s).1 in
        (r.0 ≡ returned price) × (r.1.network ≡ s.network)
  unfolding get_gas_price
  get_gas_price-set_gas_price type (legacy price) s given form =
      rw (set_legacy_lem type price s, get_gas_price, of_not _ form)
        (get_legacy-of_view type price
          (record s { cache = (b.cache.set (get_gas_price_key b type) price s.cache).1 })
          (after_write (get_gas_price_key b type) price s) (of_not _ given))
  get_gas_price-set_gas_price type (eip1559 priority fee) s given form =
      rw (set_pair_lem type priority fee s, get_gas_price, form)
        (get_pair-of_view type priority fee (record s { cache = both type priority fee s.cache })
          (fee_there type priority fee s) (priority_there type priority fee s) (of_not _ given))
