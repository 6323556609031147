-- ===== src/Account/Action.antt =====
-- crates/shielder-account/src/shielder_action.rs, and the events of
-- crates/shielder-contract/src/types.rs from which actions are made. Transaction hashes, addresses,
-- and notes are numbers, byte strings lists of bytes.
use zk_os_monorepo.Base.{ℕ, List}
use zk_os_monorepo.Setup.Version.{Bytes3}
use zk_os_monorepo.Token.{Token, from_address}

pub record ShielderTxData : Type 0 where
  pub amount : ℕ
  pub note_index : ℕ
  pub tx_hash : ℕ
  pub token : Token
  pub protocol_fee : ℕ

pub data ShielderAction : Type 0 where
  new_account deposit : ShielderTxData → ShielderAction
  withdraw : ℕ → ShielderTxData → ShielderAction

unfoldable pub action_data : ShielderAction → ShielderTxData
action_data (new_account d) = d
action_data (deposit d) = d
action_data (withdraw to d) = d

unfoldable pub action_token : ShielderAction → Token
action_token (new_account d) = d.token
action_token (deposit d) = d.token
action_token (withdraw to d) = d.token

pub record NewAccount : Type 0 where
  pub contract_version : Bytes3
  pub prenullifier : ℕ
  pub token_address : ℕ
  pub amount : ℕ
  pub new_note : ℕ
  pub new_note_index : ℕ
  pub mac_salt : ℕ
  pub mac_commitment : ℕ
  pub protocol_fee : ℕ
  pub memo : List ℕ

pub record Deposit : Type 0 where
  pub contract_version : Bytes3
  pub token_address : ℕ
  pub amount : ℕ
  pub new_note : ℕ
  pub new_note_index : ℕ
  pub mac_salt : ℕ
  pub mac_commitment : ℕ
  pub protocol_fee : ℕ
  pub memo : List ℕ

pub record Withdraw : Type 0 where
  pub contract_version : Bytes3
  pub token_address : ℕ
  pub amount : ℕ
  pub withdrawal_address : ℕ
  pub new_note : ℕ
  pub new_note_index : ℕ
  pub relayer_address : ℕ
  pub fee : ℕ
  pub mac_salt : ℕ
  pub mac_commitment : ℕ
  pub pocket_money : ℕ
  pub protocol_fee : ℕ
  pub memo : List ℕ

pub data ShielderContractEvents : Type 0 where
  new_account_event : NewAccount → ShielderContractEvents
  deposit_event : Deposit → ShielderContractEvents
  withdraw_event : Withdraw → ShielderContractEvents

-- `From<(TxHash, ShielderContractEvents)>`
unfoldable pub from_event : ℕ → ShielderContractEvents → ShielderAction
from_event tx_hash (new_account_event e) = new_account (record {
  amount = e.amount;
  note_index = e.new_note_index;
  tx_hash = tx_hash;
  token = from_address e.token_address;
  protocol_fee = e.protocol_fee;
})
from_event tx_hash (deposit_event e) = deposit (record {
  amount = e.amount;
  note_index = e.new_note_index;
  tx_hash = tx_hash;
  token = from_address e.token_address;
  protocol_fee = e.protocol_fee;
})
from_event tx_hash (withdraw_event e) = withdraw e.withdrawal_address (record {
  amount = e.amount;
  note_index = e.new_note_index;
  tx_hash = tx_hash;
  token = from_address e.token_address;
  protocol_fee = e.protocol_fee;
})

-- `ShielderContractEvents::note`
unfoldable pub event_note : ShielderContractEvents → ℕ
event_note (new_account_event e) = e.new_note
event_note (deposit_event e) = e.new_note
event_note (withdraw_event e) = e.new_note
