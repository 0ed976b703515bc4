-- ===== src/Server/Schemas.antt =====
-- server/src/routes/relay/relay.schema.ts: the schemas of the requests, as they are built with Joi.
use relayer_node.Base.{String}
use relayer_node.Js.Text.{◌&◌}
use relayer_node.Types.{TransactionMethodType}

mutual
  pub data Schema : Type 0 where
    number : Schema
    string : Schema
    -- string.regex(pattern)
    regex : (pattern : String) → Schema
    -- object.keys({ ... })
    object : Keys → Schema
    -- array.items(schema)
    array : Schema → Schema
    -- alternatives.try(...)
    alternatives : Choices → Schema
    -- .required()
    required : Schema → Schema
    -- .error(new Error(message))
    with_error : (message : String) → Schema → Schema

  pub data Keys : Type 0 where
    end : Keys
    key : (name : String) → Schema → Keys → Keys

  pub data Choices : Type 0 where
    none_left : Choices
    choice : Schema → Choices → Choices

-- .required().error(new Error(message))
abbrev needed : Schema → String → Schema
needed schema message = with_error message (required schema)

abbrev address_schema : Schema
address_schema = regex "^0x[a-fA-F0-9]{40}$"

-- The keys of JSON-RPC.
abbrev rpc_keys : Keys
rpc_keys =
    key "jsonrpc" (needed string "jsonrpc is required")
      (key "id" (needed number "id is required") end)

abbrev pub scw_request_schema : Schema
scw_request_schema = object (
    key "method" (regex "eth_sendSmartContractWalletTransaction") (
      key "params"
        (array (
          object (
            key "value" number (
              key "to" (needed address_schema "to is required") (
                key "gasLimit" string (
                  key "data" (needed string "data is required") (
                    key "chainId" (needed number "chainId is required") (
                      key "walletInfo"
                        (with_error "walletAddress is required"
                          (object (key "address" (needed string "address is required") end)))
                        (key "refundInfo"
                          (needed
                            (object (
                              key "tokenGasPrice" (needed string "tokenGasPrice is required")
                                (key "gasToken" (needed string "gasToken is required") end)))
                            "refundInfo is required")
                          end)))))))))
        rpc_keys))

-- A field of a user operation that is a text of hexadecimal digits.
abbrev hex_field : String → Keys → Keys
hex_field name keys =
    key name (needed string (name & " is required and should be a hex string")) keys

abbrev user_op : Schema
user_op = object (
    key "sender" (needed address_schema "sender address is required") (
      hex_field "nonce" (
        key "initCode" string (
          hex_field "callData" (
            hex_field "callGasLimit" (
              hex_field "verificationGasLimit" (
                hex_field "preVerificationGas" (
                  hex_field "maxFeePerGas" (
                    hex_field "maxPriorityFeePerGas" (
                      key "paymasterAndData" string
                        (key "signature" (needed string "signature is required") end)))))))))))

abbrev pub aa_request_schema : Schema
aa_request_schema = object (
    key "method" (regex "eth_sendUserOperation") (
      key "params"
        (array (
          alternatives (
            choice user_op (
              choice (needed string "entryPointAddress is required") (
                choice (needed number "chainId is required") (
                  choice (object (key "dappAPIKey" (needed string "dappAPIKey is required") end))
                    none_left))))))
        rpc_keys))

abbrev pub cross_chain_request_schema : Schema
cross_chain_request_schema = object (
    key "method" (regex "eth_sendCrossChainTransaction") (
      key "params"
        (object (
          key "value" number (
            key "to" (needed address_schema "to address is required") (
              key "gasLimit" string (
                key "data" (needed string "data is required") (
                  key "chainId" (needed number "chainId is required") (
                    key "refundInfo"
                      (needed
                        (object (
                          key "tokenGasPrice" (needed string "tokenGasPrice is required") (
                            key "gasToken"
                              (needed string "gasToken type sent in request is required") end)))
                        "refundInfo is required")
                      end)))))))
        rpc_keys))

abbrev pub fee_options_keys : Keys
fee_options_keys = key "chainId" (needed string "chainId is required") end

abbrev pub transaction_status_keys : Keys
transaction_status_keys =
    key "chainId" (needed string "chainId is required")
      (key "transactionId" (needed string "transactionId is required") end)

abbrev pub transaction_resubmit_keys : Keys
transaction_resubmit_keys = key "chainId" (needed number "chainId is required") (
    key "transactionId" (needed string "transactionId is required")
      (key "gasPrice" (needed number "gasPrice is required") end))

-- The schema by which validateRelayRequest looks at a request.
unfoldable pub schema_of : TransactionMethodType → Schema
schema_of TransactionMethodType.scw = scw_request_schema
schema_of TransactionMethodType.aa = aa_request_schema
schema_of TransactionMethodType.cross_chain = cross_chain_request_schema
