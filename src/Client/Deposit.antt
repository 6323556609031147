-- ===== src/Client/Deposit.antt =====
-- `deposit` and `new_account` of crates/shielder-cli/src/shielder_ops/deposit.rs and new_account.rs.
use zk_os_monorepo.Base.{ℕ, Bool, Option, some, List}
use zk_os_monorepo.Base.Word.{add256}
use zk_os_monorepo.Outcome.{Outcome, ok_or, or_panic, guard, ◌>>=◌, ◌>>◌}
use zk_os_monorepo.Setup.ProtocolFee.{compute_protocol_fee_from_net}
use zk_os_monorepo.Conversions.{Field}
use zk_os_monorepo.Token.{Token, native, erc20}
use zk_os_monorepo.Account.Action.{ShielderAction, ShielderTxData}
use zk_os_monorepo.Account.State.{Hashes, current_leaf_index}
use zk_os_monorepo.Calls.Types.{
  Point, NewAccountCall, DepositCall, NewAccountNativeCall, NewAccountErc20Call, DepositNativeCall,
  DepositErc20Call, new_account_native_try_from, new_account_erc20_try_from,
  deposit_native_try_from, deposit_erc20_try_from,
}
use zk_os_monorepo.Calls.Knowledge.{
  Circuits, NewAccountProverKnowledge, DepositProverKnowledge, prepare_new_account, prepare_deposit,
}
use zk_os_monorepo.Client.{
  ClientError, provider_error, no_equipment, ClientState, account_of, register,
  get_current_merkle_path, remembered,
}

-- A transaction's and its block's hash.
abbrev pub Receipt : Type 0
Receipt = ℕ × ℕ

-- What the two operations ask for; `memo` and the amount are the command's.
pub record DepositWorld (Fr : Type 0) : Type 0 where
  pub get_merkle_path : ℕ → Option (List ℕ)
  pub anonymity_revoker_pubkey : Option Point
  pub protocol_deposit_fee_bps : Option ℕ
  pub has_equipment : Bool
  pub prove_new : NewAccountProverKnowledge Fr → List ℕ
  pub prove_deposit : DepositProverKnowledge Fr → List ℕ
  pub caller_address : ℕ
  pub encryption_salt : ℕ
  pub mac_salt : ℕ
  -- The calls that change the chain; a native call carries a value.
  pub deposit_native : DepositNativeCall → ℕ → Option Receipt
  pub deposit_erc20 : DepositErc20Call → Option Receipt
  pub approve_erc20 : ℕ → Option Receipt
  pub new_account_native : NewAccountNativeCall → ℕ → Option Receipt
  pub new_account_erc20 : NewAccountErc20Call → Option Receipt
  -- The note's index in the event of a transaction.
  pub event_note_index : ℕ → ℕ → Option ℕ

module _ {Fr : Type 0} (world : DepositWorld Fr) where
  unfoldable pub send_deposit : DepositCall → Token → ℕ → Outcome ClientError Receipt
  send_deposit call native amount = do
    converted ← or_panic (deposit_native_try_from call)
    ok_or (world.deposit_native converted amount) provider_error
  send_deposit call (erc20 a) amount = do
    converted ← or_panic (deposit_erc20_try_from call)
    ok_or (world.deposit_erc20 converted) provider_error

  unfoldable pub send_new_account : NewAccountCall → Token → ℕ → Outcome ClientError Receipt
  send_new_account call native amount = do
    converted ← or_panic (new_account_native_try_from call)
    ok_or (world.new_account_native converted amount) provider_error
  send_new_account call (erc20 a) amount = do
    approved ← ok_or (world.approve_erc20 a) provider_error
    converted ← or_panic (new_account_erc20_try_from call)
    ok_or (world.new_account_erc20 converted) provider_error

-- What is registered of a transaction.
abbrev pub tx_data : ℕ → ℕ → ℕ → Token → ℕ → ShielderTxData
tx_data amount note_index tx_hash token protocol_fee = record {
  amount = amount;
  note_index = note_index;
  tx_hash = tx_hash;
  token = token;
  protocol_fee = protocol_fee;
}

module _ (f : Field) (h : Hashes f) (keccak : List ℕ → List ℕ) (circuits : Circuits f)
    (world : DepositWorld f.Fr) where
  unfoldable pub deposit : ClientState → ℕ → Token → List ℕ → Outcome ClientError ClientState
  deposit state amount token memo = do
    account ← or_panic (account_of state token)
    leaf_index ← or_panic (current_leaf_index account)
    merkle ← get_current_merkle_path world.get_merkle_path leaf_index
    bps ← remembered state.protocol_fees.deposit_fee world.protocol_deposit_fee_bps
    let known = record state {
      protocol_fees = record state.protocol_fees { deposit_fee = some bps };
    }
    protocol_fee ← or_panic (compute_protocol_fee_from_net amount bps)
    let gross = add256 amount protocol_fee
    guard world.has_equipment no_equipment
    let call = prepare_deposit f h keccak circuits world.prove_deposit account token gross (record {
      merkle_path = merkle.1;
      mac_salt = world.mac_salt;
      caller_address = world.caller_address;
      protocol_fee = protocol_fee;
      memo = memo;
    })
    receipt ← send_deposit world call token gross
    note_index ← ok_or (world.event_note_index receipt.0 receipt.1) provider_error
    register known token
        (ShielderAction.deposit (tx_data gross note_index receipt.0 token protocol_fee))

  unfoldable pub new_account : ClientState → ℕ → Token → List ℕ → Outcome ClientError ClientState
  new_account state amount token memo = do
    pubkey ← ok_or world.anonymity_revoker_pubkey provider_error
    bps ← remembered state.protocol_fees.deposit_fee world.protocol_deposit_fee_bps
    let known = record state {
      protocol_fees = record state.protocol_fees { deposit_fee = some bps };
    }
    protocol_fee ← or_panic (compute_protocol_fee_from_net amount bps)
    let gross = add256 amount protocol_fee
    guard world.has_equipment no_equipment
    account ← or_panic (account_of state token)
    let call = prepare_new_account f h keccak circuits world.prove_new account token gross (record {
      anonymity_revoker_public_key = pubkey;
      encryption_salt = world.encryption_salt;
      mac_salt = world.mac_salt;
      caller_address = world.caller_address;
      protocol_fee = protocol_fee;
      memo = memo;
    })
    receipt ← send_new_account world call token gross
    note_index ← ok_or (world.event_note_index receipt.0 receipt.1) provider_error
    register known token
        (ShielderAction.new_account (tx_data gross note_index receipt.0 token protocol_fee))
