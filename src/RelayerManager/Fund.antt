-- ===== src/RelayerManager/Fund.antt =====
-- hasBalanceBelowThreshold and fundRelayers of EVMRelayerManager.
use relayer_node.Base.{
  ℕ, String, Bool, false, ◌||◌, Option, none, some, List, [], ◌∷◌, leb, ◌==◌, if◌then◌else◌,
}
use relayer_node.Js.Text.{to_string, to_lower_case}
use relayer_node.Exec.{Exec, ◌>>=◌, ◌>>◌, pure, throw, gets, or_throw, type_error}
use relayer_node.Types.{NetworkBasedGasPrice, legacy, eip1559, funding, Account}
use relayer_node.RelayerQueue
use relayer_node.RelayerQueue.{RelayerMetaData}
use relayer_node.RelayerManager.State.{
  RelayerManager, FundingTransaction, Services, State, service, acquire_fund, release_fund,
}

abbrev pub at_most : Option RelayerMetaData → ℕ → Bool
at_most none threshold = false
at_most (some relayer_data) threshold = leb relayer_data.balance threshold

-- Only the relayers in the queue are looked at.
unfoldable pub has_balance_below_threshold : RelayerManager → String → Bool
has_balance_below_threshold m relayer_address =
    at_most (RelayerQueue.find (to_lower_case relayer_address) (RelayerQueue.list m.relayer_queue))
      m.funding_balance_threshold

-- [42161, 421611].includes(this.chainId)
abbrev gas_limit_index : ℕ → ℕ
gas_limit_index chain_id = if chain_id == 42161 || chain_id == 421611 then 1 else 0

module _ (svc : Services) where
  open svc use {
    World, get_nonce, get_gas_price, send_transaction, generate_transaction_id, big_number_from,
    to_hex_string, parse_ether,
  }

  -- ethers.BigNumber.from(gasPrice).toHexString(): the pair of EIP-1559 is no BigNumberish.
  unfoldable pub hex_gas_price : NetworkBasedGasPrice → Exec (State World) String
  hex_gas_price (legacy price) = do
    n ← or_throw (big_number_from price) "invalid BigNumber string"
    pure (to_hex_string n)
  hex_gas_price (eip1559 max_priority_fee_per_gas max_fee_per_gas) =
      throw (type_error "invalid BigNumber value")

  -- The branch of a relayer with little balance: the funding transaction is built and sent.
  unfoldable pub fund_relayer : String → Exec (State World) (Unit {0})
  fund_relayer address = do
    m ← gets (λ s. s.manager)
    let owner : Account = m.owner_account_details
    owner_account_nonce ← service (get_nonce owner.public_key)
    price ← service get_gas_price
    gas_price ← hex_gas_price price
    gas_limit ← or_throw (m.gas_limit_map (gas_limit_index m.chain_id)) "gasLimit is undefined"
    gas_limit_number ← or_throw (big_number_from (to_string gas_limit)) "invalid BigNumber string"
    value ← or_throw (parse_ether m.funding_relayer_amount) "invalid decimal value"
    nonce ← or_throw (big_number_from (to_string owner_account_nonce)) "invalid BigNumber string"
    let raw_tx : FundingTransaction = record {
      from = owner.public_key;
      call_data = "0x";
      gas_price = gas_price;
      gas_limit = to_hex_string gas_limit_number;
      to = address;
      value = to_hex_string value;
      nonce = to_hex_string nonce;
      chain_id = m.chain_id;
      transaction_id = "";
      wallet_address = "";
    }
    transaction_id ← service (generate_transaction_id raw_tx)
    service
        (send_transaction (record raw_tx { transaction_id = transaction_id }) owner funding m.name)

  -- if (!this.hasBalanceBelowThreshold(address)) { ... } else { ... }
  unfoldable pub fund_if_below : String → Exec (State World) (Unit {0})
  fund_if_below address s =
      (if has_balance_below_threshold s.manager address then fund_relayer address else pure tt) s

  -- An exception leaves the loop before `release()`.
  unfoldable pub fund_relayers : List String → Exec (State World) (Unit {0})
  fund_relayers [] = pure tt
  fund_relayers (relayer_address ∷ address_list) = do
    let address = to_lower_case relayer_address
    acquire_fund
    fund_if_below address
    release_fund
    fund_relayers address_list
