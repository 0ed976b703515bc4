-- ===== src/Queues/Names.antt =====
-- The names of the queues tell their kinds and chains apart.
use text.Mathlib.TextLemmas.{append_cancel_left, append_cancel_right}
use relayer_node.Base.{ℕ, String, ◌≡◌, refl, sym, ap, ◌∙◌, str_eq, if◌then◌else◌}
use relayer_node.Js.Text.{to_string-injective}
use relayer_node.Queues.{QueueKind, aa, scw, transaction_handler, retry, exchange_name, routing_key}

kind_of_exchange : String → QueueKind
kind_of_exchange name =
    if str_eq name "relayer_queue_exchange_AA"
    then aa
    else if str_eq name "relayer_queue_exchange_SCW"
    then scw
    else if str_eq name "transaction_queue_exchange"
    then transaction_handler
    else retry

kind_of_exchange-exchange_name : (k : QueueKind) → kind_of_exchange (exchange_name k) ≡ k
unfolding kind_of_exchange exchange_name
kind_of_exchange-exchange_name aa = refl
kind_of_exchange-exchange_name scw = refl
kind_of_exchange-exchange_name transaction_handler = refl
kind_of_exchange-exchange_name retry = refl

pub exchange_name-injective : (k l : QueueKind) → exchange_name k ≡ exchange_name l → k ≡ l
exchange_name-injective k l h =
    sym (kind_of_exchange-exchange_name k)
    ∙ ap kind_of_exchange h
    ∙ kind_of_exchange-exchange_name l

pub routing_key-injective : (k : QueueKind) (c d : ℕ) → routing_key k c ≡ routing_key k d → c ≡ d
unfolding routing_key
routing_key-injective aa c d h =
    to_string-injective c d
      (append_cancel_right _ _ ".type.AA" (append_cancel_left "chainid." _ _ h))
routing_key-injective scw c d h =
    to_string-injective c d
      (append_cancel_right _ _ ".type.SCW" (append_cancel_left "chainid." _ _ h))
routing_key-injective transaction_handler c d h =
    to_string-injective c d (append_cancel_left "chainid." _ _ h)
routing_key-injective retry c d h =
    to_string-injective c d (append_cancel_left "retry_chainid." _ _ h)
