-- ===== src/Server.antt =====
-- server/src: the requests of the relay API, of a node that supports one chain. Texts of errors are
-- kept with their parts. The relay services of common/relay-service put the messages into queues.
pub mod Schemas
pub mod Validation
pub mod Simulated
pub mod Relay
pub mod Refusals
pub mod Accepted
pub mod Transactions
pub mod Routes
use relayer_node.Base.{ℕ, ℤ, String, Bool, Option, List}
use relayer_node.Exec.{JsError, Exec}
use relayer_node.Types.{
  TransactionMethodType, TransactionStatus, TransactionResponse, TransactionReceipt,
}
use relayer_node.Backend.{Backend, State, QueueService}
use relayer_node.Consumers.{UserOperation, TransactionMessage, EntryPoint}
use relayer_node.Server.Schemas.{Schema}
use relayer_node.Simulation.{RefundInfo, SimulationMessage, Simulators}

-- params[0] of a request for a smart contract wallet. The value is kept as the text that it shows.
pub record ScwParams : Type 0 where
  pub to : String
  pub call_data : String
  pub gas_limit : Option String
  pub chain_id : ℕ
  pub value : String
  pub wallet_info : Option String
  pub refund_info : RefundInfo

-- req.body: the params by their places, those of one method; `none` is undefined. A method that is
-- not one of the three is `none`. The gas limit that a simulation finds is written back into it.
pub record RelayRequest : Type 0 where
  pub method : Option TransactionMethodType
  pub scw : Option ScwParams
  pub user_op : Option UserOperation
  pub entry_point_address : Option String
  pub chain_id : Option ℕ
  pub meta_data : Option String
  pub gas_limit_from_simulation : Option ℕ

-- An error of Joi: an error of the schema's own has no details.
pub record JoiError : Type 0 where
  pub details : Option (List String)
  pub message : String

-- What GET /status shows of a transaction; `chain_id` is parseInt of the query's.
pub record TransactionView : Type 0 where
  pub chain_id : Option ℤ
  pub transaction_id : Option String
  pub status : Option TransactionStatus
  pub transaction_hash : Option String
  pub gas_price : Option ℕ
  pub receipt : Option TransactionReceipt
  pub previous_transaction_hash : Option String

-- The error that an answer tells of; `unspecified` is undefined.
pub data ApiError : Type 0 where
  text : String → ApiError
  simulation : SimulationMessage → ApiError
  exception : JsError → ApiError
  unspecified : ApiError

pub data Body : Type 0 where
  relayed : (transaction_id connection_url : String) → Body
  status_of : TransactionView → Body
  resubmitted : TransactionResponse → Body
  refused : ApiError → Body

-- res.status(code).json(body)
pub record Response : Type 0 where
  pub code : ℕ
  pub body : Body

-- What the handlers call: the simulations, the queues of the relay services, the ids, and the
-- configuration. `supports_aa` and `supports_scw` tell whether the chain has the type.
pub record Api : Type 1 where
  pub simulators : Simulators
  pub scw_queue : QueueService TransactionMessage
  pub aa_queue : QueueService TransactionMessage
  pub Ids : Type 0
  -- generateTransactionId: a hash with the time and a random number
  pub generate_transaction_id : String → Exec Ids String
  pub supports_aa : Bool
  pub supports_scw : Bool
  pub entry_points : List EntryPoint
  -- the package Joi
  pub validate : Schema → RelayRequest → Option JoiError
  pub connection_url : String
  -- n.toString(16)
  pub to_hex : ℕ → String

pub record ApiState (b : Backend) (api : Api) : Type 0 where
  pub backend : State b
  pub simulators : api.simulators.World
  pub scw_queue : api.scw_queue.Channel
  pub aa_queue : api.aa_queue.Channel
  pub ids : api.Ids

abbrev pub refusal : ℕ → ApiError → Response
refusal code error = record { code = code; body = refused error }

module _ {ℓ} {b : Backend} {api : Api} {A : Type ℓ} where
  abbrev pub on_backend : Exec (State b) A → Exec (ApiState b api) A
  on_backend m s = let (r, t) = m s.backend in (r, record s { backend = t })

  abbrev pub on_scw_queue : Exec api.scw_queue.Channel A → Exec (ApiState b api) A
  on_scw_queue m s = let (r, w) = m s.scw_queue in (r, record s { scw_queue = w })

  abbrev pub on_aa_queue : Exec api.aa_queue.Channel A → Exec (ApiState b api) A
  on_aa_queue m s = let (r, w) = m s.aa_queue in (r, record s { aa_queue = w })

  abbrev pub on_ids : Exec api.Ids A → Exec (ApiState b api) A
  on_ids m s = let (r, w) = m s.ids in (r, record s { ids = w })
