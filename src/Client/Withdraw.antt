-- ===== src/Client/Withdraw.antt =====
-- `withdraw` of crates/shielder-cli/src/shielder_ops/withdraw.rs.
use zk_os_monorepo.Base.{ℕ, zero, suc, Bool, not, Option, none, some, List, ltb}
use zk_os_monorepo.Base.Word.{add256}
use zk_os_monorepo.Outcome.{Outcome, ok, err, ok_or, or_panic, guard, ◌>>=◌, ◌>>◌}
use zk_os_monorepo.Setup.Version.{contract_version, to_bytes}
use zk_os_monorepo.Setup.ProtocolFee.{compute_protocol_fee_from_net}
use zk_os_monorepo.Conversions.{Field}
use zk_os_monorepo.Token.{Token}
use zk_os_monorepo.Account.Action.{ShielderAction}
use zk_os_monorepo.Account.State.{ShielderAccount, Hashes, current_leaf_index}
use zk_os_monorepo.Calls.Knowledge.{Circuits, WithdrawProverKnowledge, prepare_withdraw}
use zk_os_monorepo.Relayer.Service.{QuoteFeeResponse, RelayQuery, relay_quote}
use zk_os_monorepo.Client.{
  ClientError, relayer_unhealthy, quote_refused, provider_error, not_enough_funds, no_equipment,
  relay_refused, not_included, no_receipt, ClientState, account_of, register,
  get_current_merkle_path, remembered,
}
use zk_os_monorepo.Client.Deposit.{tx_data}

-- What a withdrawal asks for.
pub record WithdrawWorld (Fr Decimal : Type 0) : Type 0 where
  pub relayer_is_healthy : Bool
  pub quote_fees : Token → ℕ → Option (QuoteFeeResponse Decimal)
  pub protocol_withdraw_fee_bps : Option ℕ
  pub has_equipment : Bool
  pub get_merkle_path : ℕ → Option (List ℕ)
  pub chain_id : Option ℕ
  pub relayer_address : Option ℕ
  pub mac_salt : ℕ
  pub prove : WithdrawProverKnowledge Fr → List ℕ
  pub relay : RelayQuery Decimal → Option ℕ
  -- The receipt of a transaction at an attempt, if there is one yet, and its block, if it has one.
  pub get_transaction_receipt : ℕ → ℕ → Option (Option (Option ℕ))
  pub event_note_index : ℕ → ℕ → Option ℕ

-- The attempts that are left; the first has the highest number.
unfoldable pub get_block_hash : (ℕ → ℕ → Option (Option (Option ℕ))) → ℕ → ℕ → Outcome ClientError ℕ
get_block_hash get_transaction_receipt tx_hash zero = err no_receipt
get_block_hash get_transaction_receipt tx_hash (suc attempts) = do
  receipt ← ok_or (get_transaction_receipt tx_hash attempts) provider_error
  let later = get_block_hash get_transaction_receipt tx_hash attempts
  elim receipt [
    | none ↦ later
    | some none ↦ err not_included
    | some (some block_hash) ↦ ok block_hash
  ]

-- The amount that leaves the account and the protocol fee in it, for a net amount with the relayer's
-- fee; more than the account holds is refused.
unfoldable pub gross_amount : ℕ → ℕ → ℕ → Outcome ClientError (ℕ × ℕ)
gross_amount net bps shielded_amount = do
  protocol_fee ← or_panic (compute_protocol_fee_from_net net bps)
  let gross = add256 net protocol_fee
  guard (not (ltb shielded_amount gross)) not_enough_funds
  ok (gross, protocol_fee)

module _ (f : Field) (h : Hashes f) (keccak : List ℕ → List ℕ) (circuits : Circuits f)
    {Decimal : Type 0} (world : WithdrawWorld f.Fr Decimal) where
  unfoldable pub prepare_relayer_query :
      ShielderAccount
      → ℕ
      → ℕ
      → Token
      → QuoteFeeResponse Decimal
      → ℕ
      → ℕ
      → List ℕ
      → Outcome ClientError (RelayQuery Decimal)
  prepare_relayer_query account amount to token quoted_fee pocket_money protocol_fee memo = do
    guard world.has_equipment no_equipment
    leaf_index ← or_panic (current_leaf_index account)
    merkle ← get_current_merkle_path world.get_merkle_path leaf_index
    chain_id ← ok_or world.chain_id provider_error
    relayer_address ← ok_or world.relayer_address provider_error
    let calldata = prepare_withdraw f h keccak circuits world.prove account token amount (record {
      merkle_path = merkle.1;
      to = to;
      relayer_address = relayer_address;
      relayer_fee = quoted_fee.fee_details.total_cost_fee_token;
      contract_version = contract_version;
      chain_id = chain_id;
      mac_salt = world.mac_salt;
      pocket_money = pocket_money;
      protocol_fee = protocol_fee;
      memo = memo;
    })
    ok (record {
      calldata = record {
        expected_contract_version = to_bytes contract_version;
        amount = amount;
        withdraw_address = to;
        merkle_root = merkle.0;
        nullifier_hash = calldata.old_nullifier_hash;
        new_note = calldata.new_note;
        proof = calldata.proof;
        fee_token = token;
        fee_amount = calldata.relayer_fee;
        mac_salt = calldata.mac_salt;
        mac_commitment = calldata.mac_commitment;
        pocket_money = pocket_money;
        memo = memo;
      };
      quote = relay_quote quoted_fee;
    })

  unfoldable pub withdraw :
      ClientState → ℕ → ℕ → Token → ℕ → List ℕ → Outcome ClientError ClientState
  withdraw state amount to token pocket_money memo = do
    guard world.relayer_is_healthy relayer_unhealthy
    quoted_fee ← ok_or (world.quote_fees token pocket_money) quote_refused
    bps ← remembered state.protocol_fees.withdraw_fee world.protocol_withdraw_fee_bps
    let known = record state {
      protocol_fees = record state.protocol_fees { withdraw_fee = some bps };
    }
    account ← or_panic (account_of state token)
    charged ←
        gross_amount (add256 amount quoted_fee.fee_details.total_cost_fee_token) bps
          account.shielded_amount
    query ← prepare_relayer_query account charged.0 to token quoted_fee pocket_money charged.1 memo
    tx_hash ← ok_or (world.relay query) relay_refused
    block_hash ← get_block_hash world.get_transaction_receipt tx_hash 5
    note_index ← ok_or (world.event_note_index tx_hash block_hash) provider_error
    register known token
        (ShielderAction.withdraw to (tx_data charged.0 note_index tx_hash token charged.1))
