-- ===== src/Server/Validation.antt =====
-- server/src/middleware/request-validation/ValidateRelayRequest.ts
use relayer_node.Base.{String, Option, none, some, List}
use relayer_node.Js.Join.{join_commas}
use relayer_node.Types.{TransactionMethodType}
use relayer_node.Server.Schemas.{schema_of}
use relayer_node.Server.{RelayRequest, JoiError, text, Response, Api, refusal}

-- details.map((i) => i.message).join(','), or the error's own message
unfoldable pub message_of : Option (List String) → String → String
message_of none message = message
message_of (some details) message = join_commas details

-- The answer to what Joi finds, or `none` where the request goes on to the next handler.
unfoldable pub after_validation : Option JoiError → Option Response
unfolding message_of join_commas
after_validation none = none
after_validation (some error) = some (refusal 400 (text (message_of error.details error.message)))

-- validateRelayRequest, by the method of the request
unfoldable pub validate_method : Api → Option TransactionMethodType → RelayRequest → Option Response
unfolding after_validation
validate_method api none request =
    some (refusal 400 (text "Wrong transaction type sent in validate relay request"))
validate_method api (some method) request =
    after_validation (api.validate (schema_of method) request)
