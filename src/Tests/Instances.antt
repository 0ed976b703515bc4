-- ===== src/Tests/Instances.antt =====
-- Services of a relayer manager: every account has a balance of 5, and its address is its path.
use text.Mathlib.TextLemmas.{append_cancel_left}
use relayer_node.Base.{ℕ, String, ◌≡◌, ◌∙◌, sym, ap, Option, none, some}
use relayer_node.Js.Text.{
  ◌&◌, to_string, to_lower_case, to_lower_case-append, to_lower_case-to_string, to_string-injective,
}
use relayer_node.Js.Number.{integer_of_text}
use relayer_node.Exec.{returned}
use relayer_node.Types.{NetworkBasedGasPrice, Account}
use relayer_node.RelayerManager.State.{RelayerManagerOptions, Services, State}
use relayer_node.RelayerManager.Create.{account_at, node_path}
use relayer_node.RelayerManager.Consistency.{HasDistinctAddresses}
use relayer_node.RelayerManager.Lifecycle.{new_state}

abbrev pub test_services : NetworkBasedGasPrice → Services
test_services price = record {
  World = Unit;
  get_balance = λ address w. (returned 5, w);
  get_nonce = λ address w. (returned 0, w);
  get_gas_price = λ w. (returned price, w);
  send_transaction = λ tx owner type name w. (returned tt, w);
  generate_transaction_id = λ tx w. (returned "0x01", w);
  node_path_index = 0;
  derive = λ seed path. some (record { eth_address = path; private_key = "key" });
  big_number_from = integer_of_text;
  to_hex_string = λ n. "0x" & to_string n;
  parse_ether = integer_of_text;
}

key_of : Option Account → String
key_of none = ""
key_of (some a) = a.public_key

address_at :
    (price : NetworkBasedGasPrice) (seed : String) (i : ℕ) (a : Account)
    → account_at (test_services price) seed i ≡ some a
    → a.public_key
      ≡ to_lower_case "m/44'/60'/0'/"
        & (to_lower_case (to_string 0) & (to_lower_case "/" & to_string i))
unfolding account_at node_path key_of
address_at price seed i a e =
    sym (ap key_of e)
    ∙ (to_lower_case-append "m/44'/60'/0'/" (to_string 0 & "/" & to_string i)
        ∙ ap (λ t. to_lower_case "m/44'/60'/0'/" & t)
            (to_lower_case-append (to_string 0) ("/" & to_string i)
              ∙ ap (λ t. to_lower_case (to_string 0) & t)
                  (to_lower_case-append "/" (to_string i)
                    ∙ ap (λ t. to_lower_case "/" & t) (to_lower_case-to_string i))))

pub test_services-HasDistinctAddresses :
    (price : NetworkBasedGasPrice) (seed : String) → HasDistinctAddresses (test_services price) seed
test_services-HasDistinctAddresses price seed i j a b ei ej same = to_string-injective i j (
    append_cancel_left _ _ _ (
      append_cancel_left _ _ _ (
        append_cancel_left _ _ _
          (sym (address_at price seed i a ei) ∙ same ∙ address_at price seed j b ej))))

-- Relayers are funded up to a balance of 10, and taken back with no pending transaction.
abbrev pub test_options : RelayerManagerOptions
test_options = record {
  name = "manager";
  chain_id = 137;
  relayer_seed = "seed";
  min_relayer_count = 1;
  max_relayer_count = 2;
  inactive_relayer_count_threshold = 1;
  pending_transaction_count_threshold = 1;
  new_relayer_instance_count = 1;
  funding_balance_threshold = 10;
  funding_relayer_amount = "1";
  gas_limit_map = λ n. some 21000;
  owner_account_details = record { public_key = "0x0f"; private_key = "key" };
}

abbrev pub start : (price : NetworkBasedGasPrice) → State Unit
start price = new_state (test_services price) test_options tt
