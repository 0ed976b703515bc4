-- ===== src/FeeOption/Pairs.antt =====
-- The fee options of a chain whose gas price is a pair of fees.
use relayer_node.Base.{
  ℕ, String, ◌≡◌, refl, sym, subst, true, false, inl, inr, Option, none, some, List, [], ◌∷◌, ◌++◌,
  Bool-cases, str_eq,
}
use relayer_node.Js.Text.{to_string}
use relayer_node.Js.Dict.{Dict, lookup}
use relayer_node.Exec.{
  JsError, Exec, returned, ◌>>=◌, pure, try_catch, or_throw, IsPure, Throws, or_throw-IsPure,
  bind-IsPure, bind-Throws, Throws-bind, or_throw-Throws,
}
use relayer_node.Types.{eip1559, GasPriceType}
use relayer_node.Backend.{Backend, State}
use relayer_node.GasPrice.{get_gas_price}
use relayer_node.Status.{get_token_price_key}
use relayer_node.FeeOption.{
  Numbers, FeeOptionConfig, FeeOptions, options, failed, includes_token, is_stable,
}
use relayer_node.FeeOption.Prices.{
  big_text, convert_gas_price_to_usd, token_price, cross_chain_price, in_token, fee_option,
  fee_options, tokens_of, get_fee_options, fee_options_api, parsed_prices,
}

module _ (b : Backend) (num : Numbers) (parse : String → Option (Option (Dict String))) where
  big_text-IsPure : (text : Option String) (s : State b) → IsPure (big_text b num parse text) s
  big_text-IsPure none s = or_throw-IsPure none _ s
  big_text-IsPure (some text) s = or_throw-IsPure (num.big_of_text text) _ s

  module _ (config : FeeOptionConfig num) where
    parsed_prices-IsPure :
        (text : String) (s : State b) → IsPure (parsed_prices b num parse config text) s
    parsed_prices-IsPure text s = elim (Bool-cases (str_eq text "")) [
      | inl e ↦ rw e (inl (_, refl))
      | inr e ↦ rw e (
          bind-IsPure _ _ s (or_throw-IsPure (parse text) _ s) (λ data'. or_throw-IsPure data' _ s))
    ]

    convert-IsPure :
        (price : num.Number) (chain_price : Option String) (token : String) (s : State b)
        → IsPure (convert_gas_price_to_usd b num parse config price chain_price token) s
    unfolding convert_gas_price_to_usd
    convert-IsPure price chain_price token s = bind-IsPure _ _ s (or_throw-IsPure _ _ s) (λ offsets.
        bind-IsPure _ _ s (or_throw-IsPure _ _ s) (λ p.
          bind-IsPure _ _ s (big_text-IsPure chain_price s) (λ usd.
            bind-IsPure _ _ s (or_throw-IsPure _ _ s) (λ unit.
              bind-IsPure _ _ s (or_throw-IsPure _ _ s) (λ quotient.
                bind-IsPure _ _ s (or_throw-IsPure _ _ s) (λ offset. inl (_, refl)))))))

    in_token-IsPure :
        (price : num.Big) (decimal : Option ℕ) (s : State b)
        → IsPure (in_token b num parse config price decimal) s
    in_token-IsPure price decimal s =
        bind-IsPure _ _ s (or_throw-IsPure _ _ s) (λ unit. inl (_, refl))

    cross_chain_price-IsPure :
        (price : num.Number) (chain_price : Option String) (prices : Dict String) (token : String)
        (decimal native : Option ℕ) (s : State b)
        → IsPure
            (cross_chain_price b num parse config price chain_price prices token decimal native)
            s
    cross_chain_price-IsPure price chain_price prices token decimal none s = inl (_, refl)
    cross_chain_price-IsPure price chain_price prices token decimal (some id) s =
        bind-IsPure _ _ s (convert-IsPure price chain_price token s) (λ in_usd.
          bind-IsPure _ _ s (big_text-IsPure (some in_usd) s) (λ p.
            bind-IsPure _ _ s (big_text-IsPure (lookup (to_string id) prices) s) (λ native.
              bind-IsPure _ _ s (or_throw-IsPure _ _ s)
                (λ quotient. in_token-IsPure quotient decimal s))))

    token_price-IsPure :
        (price : num.Number) (prices : Dict String) (similar : List String) (token : String)
        (decimal : Option ℕ) (s : State b)
        → IsPure (token_price b num parse config price prices similar token decimal) s
    unfolding token_price
    token_price-IsPure price prices similar token decimal s =
        elim (Bool-cases (includes_token token similar)) [
          | inl e ↦ rw e (inl (_, refl))
          | inr e ↦ rw e (elim (Bool-cases (is_stable token)) [
            | inl f ↦ rw f (
                bind-IsPure _ _ s (convert-IsPure price _ token s) (λ in_usd.
                  bind-IsPure _ _ s (big_text-IsPure (some in_usd) s)
                    (λ p. in_token-IsPure p decimal s)))
            | inr f ↦ rw f (cross_chain_price-IsPure price _ prices token decimal _ s)
          ])
        ]

    fee_option-IsPure :
        (price : num.Number) (prices : Dict String) (token : String) (s : State b)
        → IsPure (fee_option b num parse config price prices token) s
    unfolding fee_option
    fee_option-IsPure price prices token s = bind-IsPure _ _ s (or_throw-IsPure _ _ s) (λ decimals.
        bind-IsPure _ _ s (or_throw-IsPure _ _ s) (λ similar.
          bind-IsPure _ _ s (token_price-IsPure price prices similar token _ s) (λ p.
            bind-IsPure _ _ s (or_throw-IsPure _ _ s) (λ offsets.
              bind-IsPure _ _ s (or_throw-IsPure _ _ s) (λ addresses.
                bind-IsPure _ _ s (or_throw-IsPure _ _ s)
                  (λ urls. bind-IsPure _ _ s (or_throw-IsPure _ _ s) (λ gas. inl (_, refl))))))))

    -- The tokens whose price big.js computes from the gas price.
    abbrev pub IsConverted : String → Type 0
    IsConverted token =
        (is_stable token ≡ true)
        × ((similar : List String)
            → config.similar_tokens ≡ some similar
            → includes_token token similar ≡ false)

    module _ (no_big : num.big_of_number num.nan ≡ none) where
      convert-Throws :
          (chain_price : Option String) (token : String) (s : State b)
          → Throws (convert_gas_price_to_usd b num parse config num.nan chain_price token) s
      unfolding convert_gas_price_to_usd or_throw
      convert-Throws chain_price token s =
          bind-Throws _ _ s (or_throw-IsPure config.offset _ s)
            (λ offsets. Throws-bind _ _ s (rw no_big (_, refl)))

      token_price-Throws :
          (prices : Dict String) (similar : List String) (token : String) (decimal : Option ℕ)
          (s : State b)
          → is_stable token ≡ true
          → includes_token token similar ≡ false
          → Throws (token_price b num parse config num.nan prices similar token decimal) s
      unfolding token_price
      token_price-Throws prices similar token decimal s stable other =
          rw (other, stable) (Throws-bind _ _ s (convert-Throws _ token s))

      fee_option-Throws :
          (prices : Dict String) (token : String) (s : State b)
          → IsConverted token
          → Throws (fee_option b num parse config num.nan prices token) s
      unfolding fee_option
      fee_option-Throws prices token s h =
          bind-Throws _ _ s (or_throw-IsPure config.decimals _ s) (λ decimals.
            or_throw-Throws config.similar_tokens _ _ s (λ similar e.
              Throws-bind _ _ s (token_price-Throws prices similar token _ s h.0 (h.1 similar e))))

      fee_options-Throws :
          (prices : Dict String) (before : List String) (token : String) (after : List String)
          (s : State b)
          → IsConverted token
          → Throws (fee_options b num parse config num.nan prices (before ++ token ∷ after)) s
      unfolding fee_options
      fee_options-Throws prices [] token after s h =
          Throws-bind _ _ s (fee_option-Throws prices token s h)
      fee_options-Throws prices (first ∷ before) token after s h =
          bind-Throws _ _ s (fee_option-IsPure num.nan prices first s)
            (λ entry. Throws-bind _ _ s (fee_options-Throws prices before token after s h))

      -- What comes after the price and the table's text.
      abbrev entries_of : String → Exec (State b) (FeeOptions num)
      entries_of text = do
        prices ← parsed_prices b num parse config text
        entries ←
            fee_options b num parse config num.nan prices
              (tokens_of b num parse config config.supported_fee_tokens)
        pure (options entries)

      entries_of-Throws :
          (text token : String) (before after : List String) (s : State b)
          → IsConverted token
          → config.supported_fee_tokens ≡ some (before ++ token ∷ after)
          → Throws (entries_of text) s
      entries_of-Throws text token before after s h tokens =
          bind-Throws _ _ s (parsed_prices-IsPure text s) (λ prices. Throws-bind _ _ s (
            subst
              (λ o.
                Throws
                  (fee_options b num parse config num.nan prices (tokens_of b num parse config o))
                  s)
              (sym tokens) (fee_options-Throws prices before token after s h)))

      -- On a chain whose gas price is a pair of fees, GET /feeOptions has no answer but code 400, as soon as
      -- one of the supported tokens is a stable coin that is not similar to the chain's own: the pair is no
      -- number, and big.js takes none but numbers.
      pub fee_options_api-of_pair :
          (chain_id text token priority fee : String) (before after : List String) (s t : State b)
          → IsConverted token
          → config.supported_fee_tokens ≡ some (before ++ token ∷ after)
          → get_gas_price b GasPriceType.default s ≡ (returned (eip1559 priority fee), t)
          → (b.cache.get get_token_price_key t.cache).0 ≡ returned text
          → (e : JsError) × ((fee_options_api b num parse config chain_id s).0
              ≡ returned (record { code = 400; chain_id = none; answer = failed e }))
      unfolding fee_options_api get_fee_options try_catch ◌>>=◌
      fee_options_api-of_pair chain_id text token priority fee before after s t h tokens priced
            cached =
          let u = record t { cache = (b.cache.get get_token_price_key t.cache).1 } in
          let (e, thrown_here) = entries_of-Throws text token before after u h tokens in
          (e, rw (priced, cached, thrown_here) refl)
