-- ===== src/TokenPrice/Rates.antt =====
-- The table of prices that `setup` writes, and what is read from it.
use relayer_node.Base.{
  ℕ, String, ◌≡◌, refl, ◌∙◌, ap, Bool, false, ◌||◌, Option, none, some, List, [], ◌∷◌, str_eq, inl,
  inr, Option-cases, arith, if◌then◌else◌,
}
use relayer_node.Js.Text.{to_string}
use relayer_node.Js.Dict.{Dict, lookup, insert, lookup-insert}
use relayer_node.Exec.{returned, ◌>>=◌, or_throw, try_catch}
use relayer_node.Cache.{CacheService}
use relayer_node.Cache.Laws.{CacheLaws, written-here}
use relayer_node.Status.{get_token_price_key}
use relayer_node.TokenPrice.{
  PriceApi, Json, CmcTokenPriceManager, PriceState, ids_of, insert_all, add_network, add_rates,
  url_of, setup, instance_setup, get_token_price,
}

-- Whether the text is the id of one of the chains.
unfoldable pub names_chain : String → List ℕ → Bool
names_chain key [] = false
names_chain key (id ∷ ids) = str_eq (to_string id) key || names_chain key ids

-- The price that the quotes give a chain: that of the last network that the chain belongs to.
unfoldable pub quoted : String → Dict (List ℕ) → Dict (Option String) → Option String
quoted key categories [] = none
quoted key categories ((network, price) ∷ quotes) = elim (quoted key categories quotes) [
  | some later ↦ some later
  | none ↦ if names_chain key (ids_of network categories) then price else none
]

abbrev or_else : Option String → Option String → Option String
or_else none old = old
or_else (some new) old = some new

lookup-insert_all :
    (key price : String) (ids : List ℕ) (rates : Dict String)
    → lookup key (insert_all ids price rates)
      ≡ (if names_chain key ids then some price else lookup key rates)
unfolding insert_all names_chain
lookup-insert_all key price [] rates = refl
lookup-insert_all key price (id ∷ ids) rates =
    lookup-insert_all key price ids (insert (to_string id) price rates)
    ∙ ground (arith, lookup-insert (to_string id) key price rates)

lookup-add_network :
    (key : String) (ids : List ℕ) (price : Option String) (rates rates' : Dict String)
    → add_network ids price rates ≡ some rates'
    → lookup key rates' ≡ or_else (if names_chain key ids then price else none) (lookup key rates)
unfolding add_network names_chain
lookup-add_network key [] price rates rates' h = cc
lookup-add_network key (id ∷ ids) none rates rates' h = cc
lookup-add_network key (id ∷ ids) (some price) rates rates' h =
    let made : lookup key rates' ≡ lookup key (insert_all (id ∷ ids) price rates) = cc in
    made ∙ lookup-insert_all key price (id ∷ ids) rates ∙ ground arith

-- Reading a table that the loop has made.
pub lookup-add_rates :
    (key : String) (categories : Dict (List ℕ)) (quotes : Dict (Option String))
    (rates rates' : Dict String)
    → add_rates categories quotes rates ≡ some rates'
    → lookup key rates' ≡ or_else (quoted key categories quotes) (lookup key rates)
unfolding add_rates quoted
lookup-add_rates key categories [] rates rates' h = cc
lookup-add_rates key categories ((network, price) ∷ quotes) rates rates' h =
    elim (Option-cases (add_network (ids_of network categories) price rates)) [
      | inl failed ↦ absurd (cc (rw (failed, add_rates) at h))
      | inr (next, added) ↦
          let first = lookup-add_network key _ price rates next added in
          let rest =
            lookup-add_rates key categories quotes next rates' (rw (added, add_rates) at h) in
          rest ∙ rw first (ground arith)
    ]

or_else-none : (o : Option String) → or_else o none ≡ o
or_else-none none = refl
or_else-none (some text) = refl

module _ (cache : CacheService) (laws : CacheLaws cache) (api : PriceApi) (json : Json) where
  reads_prices :
      (m : CmcTokenPriceManager) (key text : String) (prices : Dict String)
      (t : PriceState cache api)
      → laws.view t.cache get_token_price_key ≡ some text
      → json.parse text ≡ some (some prices)
      → (get_token_price cache api json m key t).0 ≡ returned (lookup key prices)
  unfolding get_token_price or_throw ◌>>=◌
  reads_prices m key text prices t stored parsed =
      rw ((laws.get-view get_token_price_key t.cache).0, stored, parsed) refl

  stores_rates :
      (m : CmcTokenPriceManager) (s : PriceState cache api) (quotes : Dict (Option String))
      (rates : Dict String)
      → (api.get (url_of m) s.world).0 ≡ returned (some quotes)
      → add_rates m.network_symbol_categories quotes [] ≡ some rates
      → laws.view (instance_setup cache api json m s).1.cache get_token_price_key
        ≡ some (json.stringify rates)
  unfolding instance_setup setup or_throw try_catch ◌>>=◌
  stores_rates m s quotes rates answered made =
      let written = laws.set-view get_token_price_key (json.stringify rates) s.cache in
      rw (answered, made, written.0)
        (written.1 get_token_price_key ∙ written-here get_token_price_key _ (laws.view s.cache))

  -- Once `setup`, called on the manager, has had quotes and could build its table, getTokenPrice gives
  -- for a chain's id the price of the last network of the quotes that the chain belongs to, and
  -- undefined for every text that is no such id, the symbol of a coin among them.
  pub setup-then_price :
      (m : CmcTokenPriceManager) (s : PriceState cache api) (quotes : Dict (Option String))
      (rates : Dict String) (key : String)
      → (api.get (url_of m) s.world).0 ≡ returned (some quotes)
      → add_rates m.network_symbol_categories quotes [] ≡ some rates
      → json.parse (json.stringify rates) ≡ some (some rates)
      → (get_token_price cache api json m key (instance_setup cache api json m s).1).0
        ≡ returned (quoted key m.network_symbol_categories quotes)
  unfolding lookup
  setup-then_price m s quotes rates key answered made parsed =
      reads_prices m key (json.stringify rates) rates _
        (stores_rates m s quotes rates answered made) parsed
      ∙ ap returned
          (lookup-add_rates key m.network_symbol_categories quotes [] rates made ∙ or_else-none _)
