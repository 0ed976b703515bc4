-- ===== src/Consumers/Allowed.antt =====
-- The limit on retries, as the consumers meet it.
use relayer_node.Base.{ℕ, String, ◌≡◌, ◌∙◌, refl, false, Option, none, some, arith}
use relayer_node.Js.Text.{parse_int}
use relayer_node.Types.{TransactionType, Account}
use relayer_node.Cache.{or_empty}
use relayer_node.Cache.Laws.{CacheLaws, written-here}
use relayer_node.Backend.{Backend, get_retry_transaction_count_key}
use relayer_node.Backend as Backends
use relayer_node.TransactionService.{TransactionDataType, is_more}
use relayer_node.TransactionService.SendTransaction.{send_new, send_transaction}
use relayer_node.TransactionService.Send.{counted, send_transaction_lem}
use relayer_node.Consumers.Relayers.{reset}

zero_is_not_more : (maximum : Option ℕ) → is_more (parse_int (or_empty (some "0"))) maximum ≡ false
unfolding parse_int
zero_is_not_more none = refl
zero_is_not_more (some maximum) = ground arith

module _ (b : Backend) (cache : CacheLaws b.cache) where
  -- Once a consumer has set the count of retries of a transaction, sendTransaction never refuses it
  -- for too many retries, whatever the count was before and whatever the maximum is.
  pub send_transaction-after_reset :
      (d : TransactionDataType) (account : Account) (type : TransactionType) (name : String)
      (s : Backends.State b)
      → let t = reset b d s in
        send_transaction b d account type name t
        ≡ send_new b d account type name (counted b cache d t)
  send_transaction-after_reset d account type name s =
      let key = get_retry_transaction_count_key d.transaction_id b.chain_id in
      let there : cache.view (b.cache.set key "0" s.cache).1 key ≡ some "0" =
        (cache.set-view key "0" s.cache).1 key ∙ written-here key (some "0") (cache.view s.cache) in
      send_transaction_lem b cache d account type name (reset b d s)
      ∙ rw (there, zero_is_not_more (b.max_retry_count type)) refl
