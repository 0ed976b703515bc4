-- ===== src/GasPrice/Polygon/Bounds.antt =====
-- The limits of the prices of Polygon, and what happens without an oracle.
use text.Mathlib.TextLemmas.{append_cancel_left}
use relayer_node.Base.{
  String, ◌≡◌, refl, sym, ◌∙◌, true, false, some, arith, str_eq, eq_iff, Bool-cases, inl, inr,
}
use relayer_node.Js.Text.{to_string}
use relayer_node.Js.Signed.{Number, nan, finite, less}
use relayer_node.Exec.{returned, ◌>>=◌, or_throw}
use relayer_node.Types.{GasPriceType}
use relayer_node.Cache.Laws.{CacheLaws, written-here}
use relayer_node.Backend.{Backend}
use relayer_node.GasPrice.{get_gas_price_key, gas_type_text}
use relayer_node.GasPrice.Cached.{set_legacy_lem}
use relayer_node.GasPrice.Polygon.{
  Prices, Oracle, PolygonState, is_truthy, raise_to_min, capped, lower_to_max, rounded_text,
  fetch_prices, adjusted, store_prices, polygon_setup,
}

less_irrefl : (x : Number) → less x x ≡ false
unfolding less
less_irrefl nan = refl
less_irrefl (finite false x) = ground arith
less_irrefl (finite true x) = ground arith

-- No number below the lower limit, and none above the upper one.
pub record IsWithin (low high x : Number) : Type 0 where
  pub from : less x low ≡ false
  pub to : less high x ≡ false

capped-to : (high x : Number) → less high (capped high x) ≡ false
capped-to high x = elim (Bool-cases (less high x)) [
  | inl e ↦ rw e (less_irrefl high)
  | inr e ↦ rw e e
]

capped-from :
    (low high x : Number)
    → less high low ≡ false
    → less x low ≡ false
    → less (capped high x) low ≡ false
capped-from low high x h k = elim (Bool-cases (less high x)) [ inl e ↦ rw e h | inr e ↦ rw e k ]

raise-from :
    (url : String) (low : Number) (p : Prices)
    → str_eq url "" ≡ false
    → less (raise_to_min url low p).fast low ≡ false
unfolding raise_to_min
raise-from url low p h = elim (Bool-cases (less p.fast low)) [
  | inl e ↦ rw (h, e) (less_irrefl low)
  | inr e ↦ rw (h, e) e
]

module _ (b : Backend) (o : Oracle) where
  -- What the adjustments give: no price above the maximum, and the fast one, which is stored as the
  -- default, not below the minimum.
  adjusted-bounds :
      (p : Prices)
      → str_eq o.polygonscan_url "" ≡ false
      → is_truthy o.max_gas_price ≡ true
      → less o.max_gas_price o.min_gas_price ≡ false
      → IsWithin o.min_gas_price o.max_gas_price (adjusted b o p).fast
        × (less o.max_gas_price (adjusted b o p).medium ≡ false)
        × (less o.max_gas_price (adjusted b o p).fastest ≡ false)
  unfolding lower_to_max
  adjusted-bounds p url limited ordered =
      let q = raise_to_min o.polygonscan_url o.min_gas_price p in
      rw limited (
        record {
          from =
              capped-from o.min_gas_price o.max_gas_price q.fast ordered
                (raise-from o.polygonscan_url o.min_gas_price p url);
          to = capped-to o.max_gas_price q.fast;
        },
        capped-to o.max_gas_price q.medium,
        capped-to o.max_gas_price q.fastest,
      )

  module _ (laws : CacheLaws b.cache) where
    keys_differ :
        (t u : GasPriceType)
        → str_eq (gas_type_text t) (gas_type_text u) ≡ false
        → str_eq (get_gas_price_key b t) (get_gas_price_key b u) ≡ false
    unfolding get_gas_price_key
    keys_differ t u h = elim (Bool-cases (str_eq (get_gas_price_key b t) (get_gas_price_key b u))) [
      | inl e ↦
          let same = append_cancel_left "_" _ _ (
            append_cancel_left (to_string b.chain_id) _ _
              (append_cancel_left "GasPrice_" _ _ ((eq_iff _ _).0 e))) in
          e ∙ sym ((eq_iff _ _).1 same) ∙ h
      | inr e ↦ e
    ]

    abbrev pub StoredPrice : PolygonState b o.World → GasPriceType → Number → Type 0
    StoredPrice s t price =
        laws.view s.backend.cache (get_gas_price_key b t)
        ≡ some (rounded_text o.exponent_text price)

    -- A price that was set before the last one is still there.
    set_other :
        (t u : GasPriceType) (value : String) (w : b.cache.Cache)
        → str_eq (gas_type_text t) (gas_type_text u) ≡ false
        → laws.view (b.cache.set (get_gas_price_key b t) value w).1 (get_gas_price_key b u)
          ≡ laws.view w (get_gas_price_key b u)
    set_other t u value w h =
        (laws.set-view (get_gas_price_key b t) value w).1 (get_gas_price_key b u)
        ∙ (rw (keys_differ t u h) refl)

    set_here :
        (t : GasPriceType) (value : String) (w : b.cache.Cache)
        → laws.view (b.cache.set (get_gas_price_key b t) value w).1 (get_gas_price_key b t)
          ≡ some value
    set_here t value w =
        (laws.set-view (get_gas_price_key b t) value w).1 (get_gas_price_key b t)
        ∙ written-here (get_gas_price_key b t) (some value) (laws.view w)

    abbrev text_of : Number → String
    text_of = rounded_text o.exponent_text

    -- The cache after the first write, and after the second.
    abbrev after_default : Prices → b.cache.Cache → b.cache.Cache
    after_default p w =
        (b.cache.set (get_gas_price_key b GasPriceType.default) (text_of p.fast) w).1

    abbrev after_medium : Prices → b.cache.Cache → b.cache.Cache
    after_medium p w =
        (b.cache.set (get_gas_price_key b GasPriceType.medium) (text_of p.medium)
          (after_default p w)).1

    store_prices-stored :
        (p : Prices) (s : PolygonState b o.World)
        → let t = (store_prices b o p s).1 in
          ((store_prices b o p s).0 ≡ returned tt)
          × StoredPrice t GasPriceType.default p.fast
          × StoredPrice t GasPriceType.medium p.medium
          × StoredPrice t GasPriceType.fast p.fastest
    unfolding store_prices ◌>>=◌
    store_prices-stored p s =
        rw
          (
            set_legacy_lem b laws GasPriceType.default (text_of p.fast) s.backend,
            set_legacy_lem b laws GasPriceType.medium (text_of p.medium),
            set_legacy_lem b laws GasPriceType.fast (text_of p.fastest),
          )
          (
            refl,
            set_other GasPriceType.fast GasPriceType.default (text_of p.fastest)
                  (after_medium p s.backend.cache) refl
                ∙ set_other GasPriceType.medium GasPriceType.default (text_of p.medium)
                    (after_default p s.backend.cache) refl
                ∙ set_here GasPriceType.default (text_of p.fast) s.backend.cache,
            set_other GasPriceType.fast GasPriceType.medium (text_of p.fastest)
                  (after_medium p s.backend.cache) refl
                ∙ set_here GasPriceType.medium (text_of p.medium) (after_default p s.backend.cache),
            set_here GasPriceType.fast (text_of p.fastest) (after_medium p s.backend.cache),
          )

    -- Once an oracle has answered with prices, setup returns, and the cache holds the texts of three
    -- rounded numbers: none of them is above the maximum of the configuration, and the default one is not
    -- below the minimum, if polygonscan and a maximum that is not zero are configured, and the minimum is
    -- not above it. A number that is NaN is neither.
    pub polygon_setup-bounds :
        (p : Prices) (s : PolygonState b o.World)
        → (fetch_prices b o s).0 ≡ returned (some p)
        → str_eq o.polygonscan_url "" ≡ false
        → is_truthy o.max_gas_price ≡ true
        → less o.max_gas_price o.min_gas_price ≡ false
        → let t = (polygon_setup b o s).1 in
          ((polygon_setup b o s).0 ≡ returned tt)
          × (q : Prices) × StoredPrice t GasPriceType.default q.fast
          × StoredPrice t GasPriceType.medium q.medium
          × StoredPrice t GasPriceType.fast q.fastest
          × IsWithin o.min_gas_price o.max_gas_price q.fast
          × (less o.max_gas_price q.medium ≡ false)
          × (less o.max_gas_price q.fastest ≡ false)
    unfolding polygon_setup or_throw ◌>>=◌
    polygon_setup-bounds p s fetched url limited ordered =
        let bounds = adjusted-bounds p url limited ordered in
        let stored = store_prices-stored (adjusted b o p) (fetch_prices b o s).1 in
        rw fetched
          (stored.0, adjusted b o p, stored.1, stored.2, stored.3, bounds.0, bounds.1, bounds.2)
