-- ===== src/Configuration/Complete.antt =====
-- config/index.ts: what validate asks of the configuration, and that it tests just that.
use relayer_node.Base.{
  ℕ, String, ◌≡◌, refl, ap, ◌∙◌, ◌⊎◌, inl, inr, Bool, true, false, Option, none, some, List, [],
  ◌∷◌, All,
}
use relayer_node.Exec.{Exec, ◌>>=◌, ◌>>◌, continue, returned, pure, or_throw, Throws}
use relayer_node.Configuration.{
  at, is_present, has_text, has_items, has_number, require, require_items, ConfigType,
  GasPriceConfig, validate_chains_config, validate_transaction_config, validate_gas_price,
  validate_fee_option, validate_token_price, validate_chain, validate_networks, validate,
}

-- There is a list, with an item.
abbrev is_filled {κ} : {A : Type κ} → Option (List A) → Bool
is_filled none = false
is_filled (some items) = has_items items

abbrev AllHold : List Bool → Type 0
AllHold = All (λ test. test ≡ true)

-- There is a value, of which Q holds.
abbrev HasSome {κ} : {A : Type κ} → (A → Type 0) → Option A → Type 0
HasSome Q none = ⊥
HasSome Q (some a) = Q a

-- The action goes on with the value where P holds, and throws an error where it does not.
data Decides {ℓ κ} {S : Type ℓ} {A : Type κ} (m : Exec S A) (a : A) (s : S) (P : Type 0)
    : Type (ℓ ⊔ κ) where
  passes : m s ≡ (returned a, s) → P → Decides m a s P
  fails : Throws m s → ¬ P → Decides m a s P

module _ {ℓ} {S : Type ℓ} {s : S} where
  infixr 5 ◌⨟◌
  -- One check, and the checks after it.
  ◌⨟◌ :
      {P Q : Type 0} {m k : Exec S (Unit {0})}
      → Decides m tt s P
      → Decides k tt s Q
      → Decides (m >> k) tt s (P × Q)
  unfolding ◌>>=◌
  ◌⨟◌ {k = k} (passes m_returns p) (passes k_returns q) =
      passes (ap (λ r. continue r.0 (λ _. k) r.1) m_returns ∙ k_returns) (p, q)
  ◌⨟◌ {k = k} (passes m_returns p) (fails (e, k_throws) not_q) =
      fails (e, ap (λ r. continue r.0 (λ _. k) r.1) m_returns ∙ k_throws) (λ (_, q). not_q q)
  ◌⨟◌ {k = k} (fails (e, m_throws) not_p) d =
      fails (e, ap (λ r. continue r.0 (λ _. k) r.1) m_throws) (λ (p, _). not_p p)

  tested : (test : Bool) (message : String) → Decides (require test message) tt s (test ≡ true)
  unfolding require
  tested true message = passes refl refl
  tested false message = fails (_, refl) (λ h. cc)

  filled {κ} :
      {A : Type κ} (items : Option (List A)) (message : String)
      → Decides (require_items items message) tt s (is_filled items ≡ true)
  unfolding require_items
  filled none message = fails (_, refl) (λ h. cc)
  filled (some items) message = tested _ message

  last :
      (test : Bool) (message : String) → Decides (require test message) tt s (AllHold (test ∷ []))
  unfolding require
  last true message = passes refl (refl, tt)
  last false message = fails (_, refl) (λ (h, _). cc)

  present {κ} :
      {A : Type κ} {Q : A → Type 0} (o : Option A) (message : String) (f : A → Exec S (Unit {0}))
      → ((a : A) → Decides (f a) tt s (Q a))
      → Decides (or_throw o message >>= f) tt s (HasSome Q o)
  unfolding ◌>>=◌ or_throw
  present none message f d = fails (_, refl) (λ h. h)
  present (some a) message f d = d a

module _ (Number : Type 0) (is_falsy : Number → Bool) where
  -- What is asked of the configuration for a chain.
  module _ (c : ConfigType Number is_falsy) (chain_id : ℕ) where
    abbrev ChainsAreComplete : Type 0
    ChainsAreComplete = AllHold (
        is_filled (at c.supported_transaction_type chain_id)
        ∷ has_text (at c.chains.currency chain_id)
        ∷ has_text (at c.chains.provider chain_id)
        ∷ has_number Number is_falsy (at c.chains.decimal chain_id)
        ∷ has_number Number is_falsy (at c.chains.retry_transaction_interval chain_id)
        ∷ [])

    abbrev TransactionsAreComplete : Type 0
    TransactionsAreComplete = AllHold (
        is_present c.errors.network_response_messages
        ∷ has_text (at c.errors.networks_nonce_error chain_id)
        ∷ has_text (at c.errors.networks_insufficient_funds_error chain_id)
        ∷ is_filled (at c.entry_point_data chain_id)
        ∷ is_present c.node_path_index
        ∷ has_items c.relayer_managers
        ∷ [])

    abbrev GasPriceIsComplete : GasPriceConfig Number is_falsy → Type 0
    GasPriceIsComplete g = AllHold (
        has_number Number is_falsy g.update_frequency_in_seconds
        ∷ has_number Number is_falsy g.update_frequency_in_seconds
        ∷ has_number Number is_falsy g.max_gas_price
        ∷ has_number Number is_falsy g.min_gas_price
        ∷ has_number Number is_falsy g.base_fee_multiplier
        ∷ [])

    abbrev FeeOptionsAreComplete : Type 0
    FeeOptionsAreComplete = AllHold (
        is_filled (at c.fee_option.supported_fee_tokens chain_id)
        ∷ is_filled (at c.fee_option.similar_tokens chain_id)
        ∷ is_present (at c.fee_option.offset chain_id)
        ∷ is_present (at c.fee_option.logo_url chain_id)
        ∷ is_present (at c.fee_option.token_contract_address chain_id)
        ∷ is_present (at c.fee_option.decimals chain_id)
        ∷ is_present (at c.fee_option.fee_token_transfer_gas chain_id)
        ∷ has_text (at c.fee_option.refund_receiver chain_id)
        ∷ [])

    abbrev TokenPricesAreComplete : Type 0
    TokenPricesAreComplete = AllHold (
        has_text c.token_price.coin_market_cap_api
        ∷ is_present c.token_price.network_symbols
        ∷ has_number Number is_falsy c.token_price.price_update_frequency_in_seconds
        ∷ is_present (at c.token_price.symbol_map_by_chain_id chain_id)
        ∷ [])

    abbrev pub IsComplete : Type 0
    IsComplete =
        ChainsAreComplete
        × (TransactionsAreComplete
            × HasSome (λ g. GasPriceIsComplete g × (FeeOptionsAreComplete × TokenPricesAreComplete))
                (at c.gas_price chain_id))

  module _ (c : ConfigType Number is_falsy) (chain_id : ℕ) (s : ConfigType Number is_falsy) where
    chains_config_lem :
        Decides
          (validate_chains_config Number is_falsy c chain_id)
          tt
          s
          (ChainsAreComplete c chain_id)
    unfolding validate_chains_config
    chains_config_lem = filled _ _ ⨟ tested _ _ ⨟ tested _ _ ⨟ tested _ _ ⨟ last _ _

    transaction_config_lem :
        Decides
          (validate_transaction_config Number is_falsy c chain_id)
          tt
          s
          (TransactionsAreComplete c chain_id)
    unfolding validate_transaction_config
    transaction_config_lem =
        tested _ _ ⨟ tested _ _ ⨟ tested _ _ ⨟ filled _ _ ⨟ tested _ _ ⨟ last _ _

    gas_price_lem :
        (g : GasPriceConfig Number is_falsy)
        → Decides
            (validate_gas_price Number is_falsy c chain_id g)
            tt
            s
            (GasPriceIsComplete c chain_id g)
    unfolding validate_gas_price
    gas_price_lem g = tested _ _ ⨟ tested _ _ ⨟ tested _ _ ⨟ tested _ _ ⨟ last _ _

    fee_option_lem :
        Decides
          (validate_fee_option Number is_falsy c chain_id)
          tt
          s
          (FeeOptionsAreComplete c chain_id)
    unfolding validate_fee_option
    fee_option_lem =
        filled _ _
        ⨟ filled _ _
        ⨟ tested _ _
        ⨟ tested _ _
        ⨟ tested _ _
        ⨟ tested _ _
        ⨟ tested _ _
        ⨟ last _ _

    token_price_lem :
        Decides
          (validate_token_price Number is_falsy c chain_id)
          tt
          s
          (TokenPricesAreComplete c chain_id)
    unfolding validate_token_price
    token_price_lem = tested _ _ ⨟ tested _ _ ⨟ tested _ _ ⨟ last _ _

    validate_chain_lem :
        Decides (validate_chain Number is_falsy c chain_id) tt s (IsComplete c chain_id)
    unfolding validate_chain
    validate_chain_lem =
        chains_config_lem
        ⨟ transaction_config_lem
        ⨟ present _ _ _ (λ g. gas_price_lem g ⨟ fee_option_lem ⨟ token_price_lem)

  validate_networks_lem :
      (c s : ConfigType Number is_falsy) (chain_ids : List ℕ)
      → Decides (validate_networks Number is_falsy c chain_ids) tt s (All (IsComplete c) chain_ids)
  unfolding validate_networks
  validate_networks_lem c s [] = passes refl tt
  validate_networks_lem c s (chain_id ∷ chain_ids) =
      validate_chain_lem c chain_id s ⨟ validate_networks_lem c s chain_ids

  -- The validation of the configuration always ends and changes nothing: it returns true where each
  -- supported network has all that is asked of it (IsComplete), and throws an error where one of them
  -- lacks something.
  pub validate-decides :
      (c : ConfigType Number is_falsy)
      → ((validate Number is_falsy c ≡ (returned true, c))
          × All (IsComplete c) c.supported_networks)
        ⊎ (Throws (validate Number is_falsy) c × (¬ All (IsComplete c) c.supported_networks))
  unfolding validate ◌>>=◌
  validate-decides c = elim (validate_networks_lem c c c.supported_networks) [
    | passes h complete ↦ inl (ap (λ r. continue r.0 (λ _. pure true) r.1) h, complete)
    | fails (e, h) not_complete ↦
        inr ((e, ap (λ r. continue r.0 (λ _. pure true) r.1) h), not_complete)
  ]
