-- ===== src/Tests/Chain.antt =====
-- The services of a chain: a Redis that holds a dictionary, a node that answers as it is told to,
-- queues that are lists, and a table that is a list of rows.
use relayer_node.Base.{
  ℕ, ◌+◌, String, ◌≡◌, ◌≢◌, refl, Bool, true, false, Option, none, some, List, [], ◌∷◌, ◌++◌, ℤ,
  pos, negsuc, eq_iff,
}
use relayer_node.Js.Dict.{Dict, lookup, insert, delete, lookup-insert, lookup-delete}
use relayer_node.Js.Text.{to_string, parse_int, parse_int-to_string}
use relayer_node.Js.Number.{integer_of_text}
use relayer_node.Exec.{Exec, Result, returned, thrown, waiting, type_error}
use relayer_node.Types.{
  TransactionResponse, TransactionReceipt, TransactionQueueMessage, RetryTransactionQueueData,
}
use relayer_node.Cache.{RedisClient, CacheService, or_empty, is_missing}
use relayer_node.Cache.Laws.{RedisLaws, CacheLaws}
use relayer_node.Network.{
  RpcRequest, get_gas_price, get_eip1159_gas_price, get_balance, estimate_gas,
  get_transaction_receipt, get_transaction_count, send_transaction, wait_for_transaction, Provider,
  evm_network_service, Answer,
}
use relayer_node.TransactionDao.{
  TransactionData, Collection, CollectionLaws, update_first, latest_first,
}
use relayer_node.Backend.{QueueService, QueueLaws, Backend, State}

increment_in : String → ℕ → Option ℤ → Exec (Dict String) ℤ
increment_in key by (some (pos n)) w = (returned (pos (n + by)), insert key (to_string (n + by)) w)
increment_in key by _ w = (thrown (type_error "value is not an integer"), w)

number_in : Option String → Option ℤ
number_in none = some (pos 0)
number_in (some text) = parse_int text

unfoldable pub redis_incr_by : String → ℕ → Exec (Dict String) ℤ
unfolding increment_in number_in
redis_incr_by key by w = increment_in key by (number_in (lookup key w)) w

abbrev pub test_redis : RedisClient
test_redis = record {
  Store = Dict String;
  get = λ key w. (returned (lookup key w), w);
  set = λ key value w. (returned tt, insert key value w);
  del = λ key w. (returned 1, delete key w);
  expire = λ key time w. (returned true, w);
  incr_by = redis_incr_by;
  decr_by = λ key by w. (thrown (type_error "not used"), w);
}

increment_in-ends :
    (key : String) (by : ℕ) (n : Option ℤ) (w : Dict String) → (increment_in key by n w).0 ≢ waiting
unfolding increment_in
increment_in-ends key by none w e = cc
increment_in-ends key by (some (pos n)) w e = cc
increment_in-ends key by (some (negsuc n)) w e = cc

pub test_redis-RedisLaws : RedisLaws test_redis
unfolding redis_incr_by increment_in number_in
test_redis-RedisLaws = record {
  view = λ w key. lookup key w;
  get-view = λ key w. (refl, λ j. refl);
  set-view = λ key value w. (refl, λ j. lookup-insert key j value w);
  del-view = λ key w. ((1, refl), λ j. lookup-delete key j w);
  incr_by-ends = λ key by w. increment_in-ends key by (number_in (lookup key w)) w;
  incr_by-number = λ key by n w h.
      rw (h, parse_int-to_string n) (refl, λ j. lookup-insert key j (to_string (n + by)) w);
}

-- A cache that is the dictionary itself.
number_at : Option String → Option ℤ
number_at none = none
number_at (some text) = parse_int text

add_to : String → ℕ → Option ℤ → Exec (Dict String) Bool
add_to key by (some (pos n)) w = (returned true, insert key (to_string (n + by)) w)
add_to key by _ w = (returned false, w)

unfoldable pub dict_increment : String → ℕ → Exec (Dict String) Bool
unfolding number_at add_to
dict_increment key by w = add_to key by (number_at (lookup key w)) w

abbrev pub dict_cache : CacheService
dict_cache = record {
  Cache = Dict String;
  decrement = λ key by w. (returned false, w);
  delete = λ key w. (returned true, delete key w);
  expire = λ key time w. (returned true, w);
  get = λ key w. (returned (or_empty (lookup key w)), w);
  increment = dict_increment;
  set = λ key value w. (returned true, insert key value w);
}

add_to-returns :
    (key : String) (by : ℕ) (n : Option ℤ) (w : Dict String)
    → (b : Bool) × ((add_to key by n w).0 ≡ returned b)
unfolding add_to
add_to-returns key by none w = (false, refl)
add_to-returns key by (some (pos n)) w = (true, refl)
add_to-returns key by (some (negsuc n)) w = (false, refl)

number_at-of_missing : (o : Option String) → is_missing o ≡ true → number_at o ≡ none
unfolding number_at parse_int
number_at-of_missing none h = refl
number_at-of_missing (some text) h = rw ((eq_iff text "").0 h) refl

pub dict_increment-returns :
    (key : String) (by : ℕ) (w : Dict String)
    → (b : Bool) × ((dict_increment key by w).0 ≡ returned b)
unfolding dict_increment
dict_increment-returns key by w = add_to-returns key by (number_at (lookup key w)) w

pub dict_increment-number :
    (key : String) (by n : ℕ) (w : Dict String)
    → lookup key w ≡ some (to_string n)
    → dict_increment key by w ≡ (returned true, insert key (to_string (n + by)) w)
unfolding dict_increment number_at add_to
dict_increment-number key by n w h = rw (h, parse_int-to_string n) refl

pub dict_increment-missing :
    (key : String) (by : ℕ) (w : Dict String)
    → is_missing (lookup key w) ≡ true
    → dict_increment key by w ≡ (returned false, w)
unfolding dict_increment add_to
dict_increment-missing key by w h = rw (number_at-of_missing (lookup key w) h) refl

abbrev pub dict_cache-CacheLaws : CacheLaws dict_cache
dict_cache-CacheLaws = record {
  view = λ w key. lookup key w;
  get-view = λ key w. (refl, λ j. refl);
  set-view = λ key value w. (refl, λ j. lookup-insert key j value w);
  delete-view = λ key w. ((true, refl), λ j. lookup-delete key j w);
  increment-returns = dict_increment-returns;
  increment-number = λ key by n w more h.
      rw (dict_increment-number key by n w h)
        (refl, λ j. lookup-insert key j (to_string (n + by)) w);
  increment-missing = λ key by w h. rw (dict_increment-missing key by w h) (refl, λ j. refl);
}

-- The node's answers: to a transaction that is sent, to a wait for one, and to a question for its
-- receipt.
pub record Answers : Type 0 where
  pub sent : Result TransactionResponse
  pub mined : Result TransactionReceipt
  pub receipt : Result (Option TransactionReceipt)

abbrev pub answer : Answers → (r : RpcRequest) → Result (Answer r)
answer a get_gas_price = returned 100
answer a get_eip1159_gas_price = thrown (type_error "not supported")
answer a (get_balance _) = returned 5
answer a (estimate_gas _ _ _) = returned 21000
answer a (get_transaction_receipt _) = a.receipt
answer a (get_transaction_count _ _) = returned 7
answer a (send_transaction _) = a.sent
answer a (wait_for_transaction _) = a.mined

abbrev pub test_provider : Answers → Provider
test_provider a = record {
  Chain = Unit;
  call = λ url request c. (answer a request, c);
  allowance = λ url token owner spender c. (returned 3, c);
  sign_transaction = λ key tx c. (returned "0xf8", c);
  hex_value = λ o. none;
  to_hex_string = to_string;
}

abbrev pub list_queue : (M : Type 0) → QueueService M
list_queue M = record {
  Channel = List M;
  publish = λ m w. (returned true, w ++ m ∷ []);
  ack = λ m w. (returned tt, w);
}

abbrev pub list_queue-QueueLaws : (M : Type 0) → QueueLaws (list_queue M)
list_queue-QueueLaws M = record {
  messages = λ w. w;
  publish-messages = λ m w. ((true, refl), refl);
  ack-messages = λ m w. (refl, refl);
}

abbrev pub list_collection : Collection
list_collection = record {
  Database = List TransactionData;
  insert_many = λ rows w. (returned tt, w ++ rows);
  update_one = λ f update w. (returned tt, update_first f update w);
  find_latest = λ f w. (returned (latest_first f w), w);
}

abbrev pub list_collection-CollectionLaws : CollectionLaws list_collection
list_collection-CollectionLaws = record {
  rows = λ w. w;
  insert_many-rows = λ rows w. (refl, refl);
  update_one-rows = λ f update w. (refl, refl);
  find_latest-rows = λ f w. (refl, refl);
}

-- A chain without EIP-1559 where a transaction is tried again five times, at half as much again.
abbrev pub test_backend : Answers → Backend
test_backend a = record {
  chain_id = 137;
  cache = dict_cache;
  network = evm_network_service (test_provider a);
  transaction_queue = list_queue TransactionQueueMessage;
  retry_transaction_queue = list_queue RetryTransactionQueueData;
  collection = list_collection;
  Slack = List String;
  send_slack_notification = λ message w. (returned tt, w ++ message ∷ []);
  eip1559_supported_networks = [];
  max_retry_count = λ type. some 5;
  bump_gas_price_multiplier = some 50;
  nonce_error = some "nonce too low";
  replacement_underpriced = "replacement transaction underpriced";
  already_known = "already known";
  insufficient_funds = "insufficient funds";
  big_number_from = integer_of_text;
  hexlify = λ n. some (to_string n);
  is_hex_string = λ text. false;
  hex_value = to_string;
  to_hex_string = to_string;
}

abbrev pub test_cache-CacheLaws : (a : Answers) → CacheLaws (test_backend a).cache
test_cache-CacheLaws a = dict_cache-CacheLaws

abbrev pub test_state : (a : Answers) → Dict String → State (test_backend a)
test_state a cache = record {
  cache = cache;
  network = record {
    rpc_url = "rpc";
    provider_url = "rpc";
    fallback_rpc_urls = "backup" ∷ [];
    chain = tt;
  };
  transaction_queue = [];
  retry_transaction_queue = [];
  database = [];
  slack = [];
  now = 1700000000000;
  waiting_for = [];
}
