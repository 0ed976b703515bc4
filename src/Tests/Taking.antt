-- ===== src/Tests/Taking.antt =====
-- The services of a chain whose node takes every transaction, with the laws that they satisfy.
use relayer_node.Types.{TransactionQueueMessage, RetryTransactionQueueData}
use relayer_node.Cache.Laws.{CacheLaws}
use relayer_node.TransactionDao.{CollectionLaws}
use relayer_node.Backend.{Backend, QueueLaws}
use relayer_node.Tests.Chain.{
  list_queue-QueueLaws, list_collection-CollectionLaws, test_backend, test_cache-CacheLaws,
}
use relayer_node.Tests.Transactions.{taking}

abbrev pub b : Backend
b = test_backend taking

abbrev pub cache : CacheLaws b.cache
cache = test_cache-CacheLaws taking

abbrev pub events : QueueLaws b.transaction_queue
events = list_queue-QueueLaws TransactionQueueMessage

abbrev pub retries : QueueLaws b.retry_transaction_queue
retries = list_queue-QueueLaws RetryTransactionQueueData

abbrev pub table : CollectionLaws b.collection
table = list_collection-CollectionLaws
