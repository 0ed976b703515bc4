-- ===== src/Notification.antt =====
-- common/notification/NotificationUtil.ts: the text that is sent to Slack.
use relayer_node.Base.{ℕ, String}
use relayer_node.Js.Text.{◌&◌, to_string}
use relayer_node.Types.{TransactionType, Account}

abbrev pub transaction_type_text : TransactionType → String
transaction_type_text TransactionType.aa = "AA"
transaction_type_text TransactionType.scw = "SCW"
transaction_type_text TransactionType.cross_chain = "CROSS_CHAIN"
transaction_type_text TransactionType.funding = "FUNDING"

abbrev get_message : (level message details action : String) → String
get_message level message details action =
    "Level: " & level & " \n Message: " & message & "\n\nDETAILS\n" & details
    & "\n\nAction Required: " & action

abbrev get_info_message : (message details : String) → String
get_info_message message details = get_message "INFO" message details "None"

unfoldable pub get_max_retry_count_notification_message :
    String → Account → TransactionType → ℕ → String
get_max_retry_count_notification_message transaction_id account transaction_type chain_id =
    get_info_message "Transaction Max retry Count Exceeded" (
      "TransactionId: "
      & transaction_id
      & "\n has exceeded max retry count.\nRelayer Address: "
      & account.public_key
      & "\nTransaction Type: "
      & transaction_type_text transaction_type
      & "\nChain Id: "
      & to_string chain_id)
