-- ===== src/Server/Routes.antt =====
-- server/src/routes/relay/relay.routes.ts: the routes of the relay API but POST /, with the middleware
-- of server/src/middleware/request-validation. Joi is a parameter, with what is documented of it.
use relayer_node.Base.{
  ℕ, String, ◌≡◌, refl, Bool, true, false, Option, none, some, str_eq, if◌then◌else◌,
}
use relayer_node.Js.Dict.{Dict}
use relayer_node.Js.Join.{join_commas}
use relayer_node.Exec.{Exec, ◌>>=◌, pure, returned}
use relayer_node.Backend.{Backend, State}
use relayer_node.RelayerManager.State.{RelayerManager}
use relayer_node.FeeOption.{Numbers, FeeOptionConfig}
use relayer_node.FeeOption.Prices.{FeeAnswer, fee_options_api}
use relayer_node.Server.Schemas.{
  Schema, with_error, required, object, Keys, end, key, fee_options_keys, transaction_status_keys,
  transaction_resubmit_keys,
}
use relayer_node.Server.{JoiError, text, unspecified, Response, refusal}
use relayer_node.Server.Transactions.{
  Databases, StatusRequest, ResubmitRequest, transaction_status, transaction_resubmit,
}

pub record Joi : Type 1 where
  -- A query, or the body of a request, and whether it has a key.
  pub Value : Type 0
  pub has : Value → String → Bool
  pub validate : Schema → Value → Option JoiError

-- Every key is required, and has an error of its own.
abbrev pub IsGuarded : Keys → Type 0
IsGuarded end = Unit
IsGuarded (key name (with_error message (required schema)) keys) = IsGuarded keys
IsGuarded (key name _ keys) = ⊥

abbrev pub lists : String → Keys → Bool
lists name end = false
lists name (key other schema keys) = if str_eq other name then true else lists name keys

-- An error that a schema is given stands for what is found there, and has no details. The keys of a
-- schema are looked at in order, before keys that it has not; the first error ends the validation.
pub record JoiLaws (joi : Joi) : Type 0 where
  pub validate-missing :
      (keys : Keys) (name : String) (value : joi.Value)
      → IsGuarded keys
      → lists name keys ≡ true
      → joi.has value name ≡ false
      → (error : JoiError) × (joi.validate (object keys) value ≡ some error)
        × (error.details ≡ none)

-- The answer to what Joi finds, or `none` where the request goes on. An error without details is a
-- TypeError of the middleware itself, which has no `errors`.
unfoldable pub after_query : Option JoiError → Option Response
after_query none = none
after_query (some error) = elim error.details [
  | none ↦ some (refusal 400 unspecified)
  | some details ↦ some (refusal 422 (text (join_commas details)))
]

-- What a request comes to: an answer of the middleware, or of the handler after it.
pub data RouteAnswer (R : Type 0) : Type 0 where
  stopped : Response → RouteAnswer R
  handled : R → RouteAnswer R

unfoldable pub next {ℓ} :
    {S : Type ℓ} {R : Type 0} → Option Response → Exec S R → Exec S (RouteAnswer R)
next (some response) handler = pure (stopped response)
next none handler = do answer ← handler; pure (handled answer)

module _ (joi : Joi) where
  unfoldable pub validate_fee_option_request : joi.Value → Option Response
  validate_fee_option_request query = after_query (joi.validate (object fee_options_keys) query)

  unfoldable pub validate_transaction_status : joi.Value → Option Response
  validate_transaction_status query =
      after_query (joi.validate (object transaction_status_keys) query)

  unfoldable pub validate_transaction_resubmit : joi.Value → Option Response
  validate_transaction_resubmit body =
      after_query (joi.validate (object transaction_resubmit_keys) body)

  -- The routes take a request twice: as Joi sees it, and as its handler reads it.
  module _ (b : Backend) where
    unfoldable pub get_fee_options_route :
        (num : Numbers) (parse : String → Option (Option (Dict String)))
        → FeeOptionConfig num
        → joi.Value
        → String
        → Exec (State b) (RouteAnswer (FeeAnswer num))
    get_fee_options_route num parse config query chain_id =
        next (validate_fee_option_request query) (fee_options_api b num parse config chain_id)

    unfoldable pub get_status_route :
        Databases → joi.Value → StatusRequest → Exec (State b) (RouteAnswer Response)
    get_status_route d query request =
        next (validate_transaction_status query) (transaction_status b d request)

    unfoldable pub post_resubmit_route :
        Dict RelayerManager
        → (ℕ → String)
        → joi.Value
        → ResubmitRequest
        → Exec (State b) (RouteAnswer Response)
    post_resubmit_route managers to_hex body request =
        next (validate_transaction_resubmit body) (transaction_resubmit b managers to_hex request)

  module _ (laws : JoiLaws joi) where
    -- A request that misses a key is refused without a message.
    after_query-of_missing :
        (keys : Keys) (name : String) (value : joi.Value)
        → IsGuarded keys
        → lists name keys ≡ true
        → joi.has value name ≡ false
        → after_query (joi.validate (object keys) value) ≡ some (refusal 400 unspecified)
    unfolding after_query
    after_query-of_missing keys name value guarded listed missing =
        let (error, found, bare) = laws.validate-missing keys name value guarded listed missing in
        rw (found, bare) refl

    -- GET /feeOptions, GET /status and POST /resubmit without a chain id are all answered by their
    -- middleware with code 400 and no message, where code 422 with the schema's message is meant, and
    -- nothing else is done.
    pub routes-of_missing_chain :
        (b : Backend) (d : Databases) (num : Numbers)
        (parse : String → Option (Option (Dict String))) (config : FeeOptionConfig num)
        (managers : Dict RelayerManager) (to_hex : ℕ → String) (value : joi.Value)
        (chain_id : String) (status : StatusRequest) (resubmit : ResubmitRequest) (s : State b)
        → joi.has value "chainId" ≡ false
        → (get_fee_options_route b num parse config value chain_id s
            ≡ (returned (stopped (refusal 400 unspecified)), s))
          × (get_status_route b d value status s
              ≡ (returned (stopped (refusal 400 unspecified)), s))
          × (post_resubmit_route b managers to_hex value resubmit s
              ≡ (returned (stopped (refusal 400 unspecified)), s))
    unfolding get_fee_options_route get_status_route post_resubmit_route validate_fee_option_request
        validate_transaction_status validate_transaction_resubmit next
    routes-of_missing_chain b d num parse config managers to_hex value chain_id status resubmit s
          missing =
        (
          rw (after_query-of_missing fee_options_keys "chainId" value tt refl missing) refl,
          rw (after_query-of_missing transaction_status_keys "chainId" value tt refl missing) refl,
          rw (after_query-of_missing transaction_resubmit_keys "chainId" value tt refl missing)
              refl,
        )
