-- ===== src/Lib.antt =====
-- The relayer node takes transactions of dapps and sends them to EVM chains with accounts of its own,
-- the relayers. This library models the services of one chain, which do the work:
--
-- * RelayerManager (relayer/src/services/relayer-manager/EVMRelayerManager.ts) owns the relayers: it
--   derives their accounts from a seed (`create_relayers`), keeps the idle ones in a queue sorted by
--   balance (RelayerQueue, relayer/src/services/relayer-queue; Bag is its abstract view), hands one out for each transaction
--   (`get_active_relayer`), takes it back (`add_active_relayer`), and funds it (`fund_relayers`,
--   `post_transaction_mined`). Its children: State, Create, Fund, Operations for the code; Consistency,
--   Lifecycle, Funding and Listing for what holds of it; below Lifecycle, Exclusive, Lost, Stranded,
--   TakenBack, Held and Returns tell what becomes of a relayer and of the mutexes, Grows and Keeps what
--   stays true.
-- * Consumers (relayer/src/services/consumer): for each message of the transaction queue a relayer is
--   taken and TransactionService is called; Consumers/Socket tells clients and managers of events.
-- * TransactionService (relayer/src/services/transaction-service/EVMTransactionService.ts) builds a
--   transaction with NonceManager (nonce-manager/EVMNonceManager.ts) and GasPrice
--   (common/gas-price/GasPrice.ts), sends it by Network (common/network/EVMNetworkService.ts), and
--   notifies TransactionListener (transaction-listener/EVMTransactionListener.ts), which publishes
--   events, saves rows by TransactionDao (common/db/dao/TransactionDAO.ts) and waits for receipts.
--   TransactionService/SendTransaction sends, and Resubmit sends again, at the price of
--   GasPrice/Bumping; GasPrice/Raised bounds it.
-- * RetryTransactionService (retry-transaction-service/EVMRetryTransactionService.ts) sends a
--   transaction again that has no receipt after a while.
-- * Cache (common/cache) is the Redis that they share; Notification the text for Slack.
-- * GasPrice/Polygon (common/gas-price/networks/PolygonGasPrice.ts) takes the prices of Polygon from its
--   oracles, and keeps them within the limits of the configuration.
-- * Queues (common/queue) are the queues of messages: Names and Wiring tell which exchange, key and
--   queue each has, Routing where a message goes, and Service that they are the queues of Backend.
-- * Server (server/src) is the relay API: Validation, Simulated and Relay are the handlers of POST /,
--   the last with common/relay-service; Refusals and Accepted tell of their answers. Simulation
--   (common/simulation) decides whether a transaction is relayed, by Tenderly or the entry point.
--   Transactions has GET /status and POST /resubmit, and
--   Pending, Tracked and Resubmitted below it what they tell of a transaction and leave alone. Schemas
--   has the schemas of requests, and Routes the other routes with their middleware.
-- * TokenPrice (common/token-price/CMCTokenPriceManager.ts) keeps the prices of coins in the cache.
-- * FeeOption (server/src/services/fee-options) prices gas in the tokens that are taken for fees, in
--   Prices.
-- * ServiceManager (common/service-manager/index.ts) is how a chain is set up, in SetUp: Routes tells
--   which types of transactions it serves then, and Shared of the queue that its managers share.
-- * Configuration (config/index.ts) is the validation of the configuration, and Complete what it asks.
-- * Status (common/status) is what the status page tells of the managers and networks.
--
-- Backend gathers the services of a chain: those with code here are used as they are, packages and
-- servers (Redis, Mongo, the message broker, ethers, hdkey, Slack, the RPC nodes) are parameters, with
-- what is documented of them as records of laws (RedisLaws, CollectionLaws, QueueLaws, AmqpLaws). Api does
-- the same for the server, with Joi (JoiLaws) and Tenderly as parameters. CacheLaws is
-- the contract of the cache for its clients. Js holds what is used of JavaScript: texts, dictionaries,
-- sorting, and doubles for prices. Exec is the monad of asynchronous methods: what was written before
-- an exception stays written, and a mutex that is held is waited for. Types has the messages.
--
-- Conventions. Methods run one at a time; Lifecycle orders calls of a manager in any sequence, but
-- does not cut a method at its awaits. A call that is not awaited runs before its caller goes on, except
-- the wait for a receipt, which is a step of its own; its error is dropped,
-- except in relayAATransaction, where it ends the process. Numbers are natural numbers where the code has
-- BigNumbers or counts; pending counts are integers. The fuel of `to_string` is the number itself, more
-- than its digits; that of `round_to_double` 1100 bits, more than a double can have. Log lines are left out.
--
-- The server is that of a node which supports one chain; a request of another chain finds no service.
-- GET /status selects the collection by the chain id of the request; those of other chains, if the
-- configuration supports any, are a parameter (Databases).
--
-- Not modelled: the rest of the HTTP server, the loop of common/service-manager over the chains, and
-- how the configuration is decrypted and merged. A balance that comes back as an Error object is not
-- represented in RelayerManager.
--
-- Tests holds concrete services and runs of the functions with them.
mod Base
mod Tests
pub mod Js
pub mod Exec
pub mod TokenPrice
pub mod Types
pub mod Cache
pub mod Network
pub mod TransactionDao
pub mod Backend
pub mod Notification
pub mod NonceManager
pub mod FeeOption
pub mod GasPrice
pub mod TransactionListener
pub mod TransactionService
pub mod RetryTransactionService
pub mod ServiceManager
pub mod Simulation
pub mod Server
pub mod Queues
pub mod Status
pub mod Configuration
pub mod Consumers
pub mod RelayerQueue
pub mod RelayerManager
