-- ===== src/TokenPrice/Unknown.antt =====
-- A cache in which no price was ever stored.
use relayer_node.Base.{
  ℕ, zero, suc, String, ◌≡◌, refl, ◌∙◌, ap, true, Option, none, some, eq_iff, inl, inr, Bool-cases,
  Option-cases, str_eq,
}
use relayer_node.Js.Text.{to_string}
use relayer_node.Js.Dict.{lookup}
use relayer_node.Exec.{Result, type_error, returned, thrown, ◌>>=◌, or_throw, try_catch}
use relayer_node.Cache.{CacheService, or_empty, is_missing}
use relayer_node.Cache.Laws.{CacheLaws}
use relayer_node.Status.{get_token_price_key}
use relayer_node.TokenPrice.{
  PriceApi, Json, CmcTokenPriceManager, PriceState, setup, scheduled_setup, get_token_price,
  get_token_price_by_token_address,
}

module _ (cache : CacheService) (laws : CacheLaws cache) (api : PriceApi) (json : Json) where
  -- What setInterval has called, so many times.
  abbrev pub ticks : ℕ → PriceState cache api → PriceState cache api
  ticks zero s = s
  ticks (suc n) s = ticks n (scheduled_setup cache api json s).1

  scheduled_setup_lem : (s : PriceState cache api) → (scheduled_setup cache api json s).1 ≡ s
  unfolding scheduled_setup setup or_throw try_catch ◌>>=◌
  scheduled_setup_lem s = refl

  ticks_lem : (n : ℕ) (s : PriceState cache api) → ticks n s ≡ s
  ticks_lem zero s = refl
  ticks_lem (suc n) s = ap (ticks n) (scheduled_setup_lem s) ∙ ticks_lem n s

  or_empty-of_missing : (o : Option String) → is_missing o ≡ true → or_empty o ≡ ""
  or_empty-of_missing none h = refl
  or_empty-of_missing (some text) h = (eq_iff text "").0 h

  -- The text that is read is empty, which JSON.parse does not take.
  get_token_price-throws :
      (m : CmcTokenPriceManager) (symbol : String) (s : PriceState cache api)
      → is_missing (laws.view s.cache get_token_price_key) ≡ true
      → json.parse "" ≡ none
      → get_token_price cache api json m symbol s ≡ (
        thrown (type_error "Unexpected end of JSON input"),
        record s { cache = (cache.get get_token_price_key s.cache).1 },
      )
  unfolding get_token_price or_throw ◌>>=◌
  get_token_price-throws m symbol s missing empty =
      rw
        (
          (laws.get-view get_token_price_key s.cache).0,
          or_empty-of_missing (laws.view s.cache get_token_price_key) missing,
          empty,
        )
        refl

  -- The answer is 0 and nothing is changed.
  abbrev pub IsZero : PriceState cache api → Result (Option String) × PriceState cache api → Type 0
  IsZero s r =
      (r.0 ≡ returned (some "0"))
      × ((j : String) → laws.view r.1.cache j ≡ laws.view s.cache j)
      × (r.1.world ≡ s.world)

  IsZero-here :
      (m : CmcTokenPriceManager) (chain_id : ℕ) (token_address : String) (s : PriceState cache api)
      → is_missing (laws.view s.cache get_token_price_key) ≡ true
      → json.parse "" ≡ none
      → IsZero s (get_token_price_by_token_address cache api json m chain_id token_address s)
  unfolding get_token_price_by_token_address or_throw try_catch ◌>>=◌
  IsZero-here m chain_id token_address s missing empty =
      elim (Bool-cases (str_eq token_address "")) [
        | inl e ↦ rw e (refl, λ j. refl, refl)
        | inr e ↦ rw e (elim (Option-cases (lookup (to_string chain_id) m.symbol_map_by_chain_id)) [
          | inl f ↦ rw f (refl, λ j. refl, refl)
          | inr (symbols, f) ↦ rw f (elim (Option-cases (lookup token_address symbols)) [
            | inl g ↦ rw g (refl, λ j. refl, refl)
            | inr (symbol, g) ↦ rw g (elim (Bool-cases (str_eq symbol "")) [
              | inl h ↦ rw h (refl, λ j. refl, refl)
              | inr h ↦
                  rw (h, get_token_price-throws m symbol s missing empty)
                    (refl, (laws.get-view get_token_price_key s.cache).1, refl)
            ])
          ])
        ])
      ]

  -- While the cache holds no table, every token has the price 0 and stays so: what is scheduled never
  -- writes a table, as it runs without its object, and getTokenPriceByTokenAddress throws within at the
  -- empty text before it gets to call `setup`, so that the price API is never asked.
  pub get_token_price_by_token_address-of_empty :
      (m : CmcTokenPriceManager) (n chain_id : ℕ) (token_address : String)
      (s : PriceState cache api)
      → is_missing (laws.view s.cache get_token_price_key) ≡ true
      → json.parse "" ≡ none
      → IsZero s
          (get_token_price_by_token_address cache api json m chain_id token_address (ticks n s))
  get_token_price_by_token_address-of_empty m n chain_id token_address s missing empty =
      rw (ticks_lem n s) (IsZero-here m chain_id token_address s missing empty)
