-- ===== src/Tests/Requests.antt =====
-- What clients ask of transactions that were relayed.
use relayer_node.Base.{◌≡◌, refl, some, [], ◌∷◌}
use relayer_node.Js.Text.{to_string, to_lower_case}
use relayer_node.Js.Dict.{Dict, lookup}
use relayer_node.Exec.{returned, ◌>>=◌, or_throw, try_catch}
use relayer_node.TransactionDao.{TransactionData, latest_first, get_by_transaction_id}
use relayer_node.Network.{network_send_transaction, use_provider}
use relayer_node.RelayerManager.State.{RelayerManager, new_relayer_manager}
use relayer_node.RelayerManager.Operations.{get_relayer}
use relayer_node.Backend.{State}
use relayer_node.TransactionService.{execute_transaction}
use relayer_node.Server.{resubmitted}
use relayer_node.Server.Accepted.{expected_row}
use relayer_node.Server.Transactions.{
  ResubmitRequest, resubmit_by, resubmit_row, transaction_resubmit,
}
use relayer_node.Server.Transactions.Resubmitted.{transaction_resubmit-leaves_rows}
use relayer_node.Tests.Chain.{Answers, test_backend, test_state, list_collection-CollectionLaws}
use relayer_node.Tests.Instances.{test_options}
use relayer_node.Tests.Transactions.{test_response, test_account}
use relayer_node.Tests.Api.{answers}

abbrev taking : Answers
taking = record answers { sent = returned test_response }

-- A manager whose only relayer has sent the transaction of the only row.
abbrev manager : RelayerManager
manager = record (new_relayer_manager test_options (record { items = [] })) {
  relayer_map = ("0x0b", test_account) ∷ [];
}

abbrev sent_row : TransactionData
sent_row = record (expected_row 137 "0xWALLET" "0xid" 0) {
  raw_transaction = some test_response;
  relayer_address = some "0x0b";
}

abbrev with_row : State (test_backend taking)
with_row = record (test_state taking []) { database = sent_row ∷ [] }

abbrev managers : Dict RelayerManager
managers = ("RM1", manager) ∷ []

abbrev asked : ResubmitRequest
asked = record { transaction_id = "0xid"; gas_price = 200 }

is_resubmitted :
    (transaction_resubmit (test_backend taking) managers to_string asked with_row).0
    ≡ returned (record { code = 200; body = resubmitted test_response })
unfolding transaction_resubmit resubmit_row resubmit_by execute_transaction get_by_transaction_id
    get_relayer latest_first lookup to_lower_case network_send_transaction use_provider try_catch
    or_throw ◌>>=◌
is_resubmitted = refl

transaction_resubmit-leaves_rows_example :
    let t = (transaction_resubmit (test_backend taking) managers to_string asked with_row).1 in
    (t.database ≡ sent_row ∷ [])
    × (t.transaction_queue ≡ [])
    × (t.retry_transaction_queue ≡ [])
    × (t.waiting_for ≡ [])
transaction_resubmit-leaves_rows_example =
    transaction_resubmit-leaves_rows (test_backend taking) managers to_string
      list_collection-CollectionLaws asked with_row
