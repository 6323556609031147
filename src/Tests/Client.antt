-- ===== src/Tests/Client.antt =====
-- The client's operations, and the recovery of an account.
use zk_os_monorepo.Base.Assoc.{lookup, upsert}
use zk_os_monorepo.Base.Bytes.{from_be_bytes, to_be_bytes, from_le_bytes, to_le_bytes}
use zk_os_monorepo.Base.Word.{checked_add256, checked_sub256, sub256}
use zk_os_monorepo.Setup.ProtocolFee.{compute_protocol_fee_from_net}
use zk_os_monorepo.Account.Secrets.{nullifier_preimage, derive_nullifier}
use zk_os_monorepo.Account.State.{previous_nullifier}
use zk_os_monorepo.Conversions.{u256_to_field, field_to_u256, field_to_address, address_to_field}
use zk_os_monorepo.Token.{address, from_address, token_eq}
use zk_os_monorepo.Account.Action.{action_data, action_token}
use zk_os_monorepo.Account.State.{current_leaf_index}
use zk_os_monorepo.Calls.Types.{deposit_native_try_from, new_account_native_try_from}
use zk_os_monorepo.Calls.Knowledge.{prepare_deposit, prepare_new_account}
use zk_os_monorepo.MerklePath.{reorganize_merkle_path}
use zk_os_monorepo.Client.{remembered, register, get_current_merkle_path}
use zk_os_monorepo.Client.Deposit.{send_deposit, send_new_account}
use zk_os_monorepo.Base.{
  ℕ, ◌+◌, ◌<◌, ◌≡◌, ◌↔◌, refl, true, none, some, List, [], ◌∷◌, ◌++◌, length, replicate, ◌==◌,
  if◌then◌else◌, arith, inl,
}
use zk_os_monorepo.Base.Word.{add256}
use zk_os_monorepo.Setup.Version.{contract_version, to_bytes}
use zk_os_monorepo.Relayer.Service.{QuoteFeeResponse}
use zk_os_monorepo.Outcome.{ok, err}
use zk_os_monorepo.Token.{native}
use zk_os_monorepo.Account.Action.{
  NewAccount, new_account_event, ShielderAction, ShielderTxData, from_event,
}
use zk_os_monorepo.Account.State.{ShielderAccount, register_action}
use zk_os_monorepo.Account.Balance.{IsConsistent}
use zk_os_monorepo.Recovery.{
  Node, Transaction, new_account_native, other_call, get_block_of_nullifier_spending,
  check_if_tx_is_shielder_action, event_not_found, recover, get_shielder_action, check_transaction,
  find_action,
}
use zk_os_monorepo.Recovery.Search.{get_shielder_action-finds}
use zk_os_monorepo.Recovery.Loop.{Holds, ended, acted, recover_iff}
use zk_os_monorepo.Relayer.Fee.Bounds.{exact_fees}
use zk_os_monorepo.Client.{ClientState, account_of}
use zk_os_monorepo.Client.Deposit.{DepositWorld, deposit, new_account}
use zk_os_monorepo.Client.Credited.{balance_of, IsCharged, deposit-credits, new_account-credits}
use zk_os_monorepo.Client.Withdraw.{
  prepare_relayer_query, get_block_hash, WithdrawWorld, gross_amount, withdraw,
}
use zk_os_monorepo.Client.Withdrawn.{IsWithdrawn, withdraw-IsWithdrawn}
use zk_os_monorepo.Client.Recover.{
  recover_state, start_account, expected_nullifier_hash, recover_state_lem,
}
use zk_os_monorepo.Client.Paid.{IsDeposited, IsOpened}
use zk_os_monorepo.Tests.Fixtures.{fr, fr-IsCanonical, hashes, keccak, circuits}

abbrev before : ShielderAccount
before = record {
  id = 7;
  token = native;
  nonce = 1;
  shielded_amount = 99;
  history =
      ShielderAction.new_account
        (record { amount = 100; note_index = 3; tx_hash = 9; token = native; protocol_fee = 1 })
      ∷ [];
}

abbrev state : ClientState
state = record {
  accounts = (0, before) ∷ [];
  protocol_fees = record { deposit_fee = none; withdraw_fee = some 50 };
}

abbrev flat : List ℕ
flat = replicate 91 5 ++ 6 ∷ []

abbrev deposit_world : DepositWorld ℕ
deposit_world = record {
  get_merkle_path = λ leaf_index. some flat;
  anonymity_revoker_pubkey = some (record { x = 1; y = 2 });
  protocol_deposit_fee_bps = some 50;
  has_equipment = true;
  prove_new = λ pk. [];
  prove_deposit = λ pk. [];
  caller_address = 12;
  encryption_salt = 13;
  mac_salt = 14;
  deposit_native = λ call amount. if amount == 1006 then some (21, 22) else none;
  deposit_erc20 = λ call. none;
  approve_erc20 = λ token. none;
  new_account_native = λ call amount. if amount == 1006 then some (21, 22) else none;
  new_account_erc20 = λ call. none;
  event_note_index = λ tx_hash block_hash. some 4;
}

abbrev deposit_data : ShielderTxData
deposit_data = record {
  amount = 1006;
  note_index = 4;
  tx_hash = 21;
  token = native;
  protocol_fee = 6;
}

abbrev paid : ShielderAction → ClientState
paid action = record {
  accounts =
      (
        0,
        record before {
          nonce = 2;
          shielded_amount = 1099;
          history = before.history ++ action ∷ [];
        },
      )
      ∷ [];
  protocol_fees = record { deposit_fee = some 50; withdraw_fee = some 50 };
}

deposit_passes :
    deposit fr hashes keccak circuits deposit_world state 1000 native []
    ≡ ok (paid (ShielderAction.deposit deposit_data))
unfolding deposit account_of lookup address remembered compute_protocol_fee_from_net add256 register
    register_action checked_add256 sub256 token_eq action_token upsert from_address field_to_address
    address_to_field from_be_bytes to_be_bytes from_le_bytes to_le_bytes current_leaf_index
    action_data get_current_merkle_path reorganize_merkle_path send_deposit prepare_deposit
    deposit_native_try_from
deposit_passes = refl

deposit-credits_example :
    (balance_of (paid (ShielderAction.deposit deposit_data)) native ≡ some (99 + 1000))
    × IsCharged state (some 50) 1000 (IsDeposited deposit_world native)
unfolding account_of lookup address
deposit-credits_example =
    deposit-credits fr fr-IsCanonical hashes keccak circuits deposit_world state
      (paid (ShielderAction.deposit deposit_data)) 1000 native [] 99 (λ e. ground (arith, e))
      (omega arith) (omega arith) refl deposit_passes

new_account_passes :
    new_account fr hashes keccak circuits deposit_world state 1000 native []
    ≡ ok (paid (ShielderAction.new_account deposit_data))
unfolding new_account account_of lookup address remembered compute_protocol_fee_from_net add256
    register register_action checked_add256 sub256 token_eq action_token upsert from_address
    field_to_address address_to_field from_be_bytes to_be_bytes from_le_bytes to_le_bytes
    send_new_account prepare_new_account new_account_native_try_from
new_account_passes = refl

new_account-credits_example :
    (balance_of (paid (ShielderAction.new_account deposit_data)) native ≡ some (99 + 1000))
    × IsCharged state (some 50) 1000 (IsOpened deposit_world native)
unfolding account_of lookup address
new_account-credits_example =
    new_account-credits fr fr-IsCanonical hashes keccak circuits deposit_world state
      (paid (ShielderAction.new_account deposit_data)) 1000 native [] 99 (λ e. ground (arith, e))
      (omega arith) (omega arith) refl new_account_passes

gross_amount_passes : gross_amount 50 50 99 ≡ ok (51, 1)
unfolding gross_amount compute_protocol_fee_from_net add256
gross_amount_passes = refl

abbrev quoted : QuoteFeeResponse ℕ
quoted = record {
  fee_details = exact_fees 1 15 0 34 1 1;
  price_details = record {
    gas_price = 1;
    native_token_price = 1;
    native_token_unit_price = 1;
    fee_token_price = 1;
    fee_token_unit_price = 1;
  };
}

abbrev withdraw_world : WithdrawWorld ℕ ℕ
withdraw_world = record {
  relayer_is_healthy = true;
  quote_fees = λ token pocket_money. some quoted;
  protocol_withdraw_fee_bps = some 70;
  has_equipment = true;
  get_merkle_path = λ leaf_index. some flat;
  chain_id = some 1;
  relayer_address = some 12;
  mac_salt = 14;
  prove = λ pk. [];
  relay = λ query. some 23;
  get_transaction_receipt = λ tx_hash attempt. some (some (some 24));
  event_note_index = λ tx_hash block_hash. some 5;
}

abbrev withdrawn : ClientState
withdrawn = record {
  accounts =
      (
        0,
        record before {
          nonce = 2;
          shielded_amount = 48;
          history =
              before.history
              ++ ShielderAction.withdraw 11 (record {
                amount = 51;
                note_index = 5;
                tx_hash = 23;
                token = native;
                protocol_fee = 1;
              })
                ∷ [];
        },
      )
      ∷ [];
  protocol_fees = record { deposit_fee = none; withdraw_fee = some 50 };
}

withdraw_passes :
    withdraw fr hashes keccak circuits withdraw_world state 30 11 native 0 [] ≡ ok withdrawn
unfolding withdraw account_of lookup address remembered gross_amount compute_protocol_fee_from_net
    add256 prepare_relayer_query current_leaf_index action_data get_current_merkle_path
    reorganize_merkle_path get_block_hash register register_action checked_sub256 token_eq
    action_token upsert
withdraw_passes = refl

withdraw-IsWithdrawn_example :
    IsWithdrawn fr hashes keccak circuits withdraw_world state withdrawn 30 native 0 99
unfolding account_of lookup address
withdraw-IsWithdrawn_example =
    withdraw-IsWithdrawn fr hashes keccak circuits withdraw_world state withdrawn before 30 11
      native 0 [] refl withdraw_passes

abbrev opening : NewAccount
opening = record {
  contract_version = to_bytes contract_version;
  prenullifier = 7;
  token_address = 0;
  amount = 100;
  new_note = 15;
  new_note_index = 3;
  mac_salt = 16;
  mac_commitment = 17;
  protocol_fee = 1;
  memo = [];
}

abbrev unrelated : Transaction
unrelated = record { info_hash = some 8; block_hash = some 31; input = other_call; tx_hash = 8 }

abbrev opening_tx : Transaction
opening_tx = record {
  info_hash = some 9;
  block_hash = some 31;
  input = new_account_native 7;
  tx_hash = 9;
}

abbrev node : Node
node = record {
  nullifiers = λ nullifier. if nullifier == 7 then some 6 else some 0;
  get_block_by_number = λ block. some (some (unrelated ∷ opening_tx ∷ []));
  get_new_account = λ tx_hash block_hash. ok opening;
  get_deposit = λ tx_hash block_hash. err event_not_found;
  get_withdraw = λ tx_hash block_hash. err event_not_found;
}

get_shielder_action-finds_example :
    get_shielder_action node 7 ≡ ok (some (9, new_account_event opening))
unfolding check_transaction check_if_tx_is_shielder_action
get_shielder_action-finds_example =
    get_shielder_action-finds node 7 5 (unrelated ∷ []) [] opening_tx (new_account_event opening)
      refl (omega arith) refl (inl refl, tt) refl

abbrev fresh : ShielderAccount
fresh = record { id = 7; token = native; nonce = 0; shielded_amount = 0; history = [] }

fresh-IsConsistent : IsConsistent fresh
fresh-IsConsistent = record { balanced = omega arith; bounded = omega arith; counted = omega arith }

abbrev opening_action : ShielderAction
opening_action =
    ShielderAction.new_account
      (record { amount = 100; note_index = 3; tx_hash = 9; token = native; protocol_fee = 1 })

-- The hash of the number of actions, of which only that of none is spent.
abbrev by_nonce : ShielderAccount → ℕ
by_nonce account = account.nonce + 7

recover_passes : recover node by_nonce 2 fresh ≡ ok before
unfolding recover get_shielder_action get_block_of_nullifier_spending find_action check_transaction
    check_if_tx_is_shielder_action from_event register_action checked_add256 sub256 token_eq
    action_token from_address
recover_passes = refl

recover_iff_example : (recover node by_nonce 2 fresh ≡ ok before) ↔ (
    (actions : List ShielderAction) × Holds node by_nonce fresh actions before
    × (length actions < 2))
recover_iff_example = recover_iff node by_nonce fresh before 2

abbrev identity : ℕ → ℕ
identity x = x

abbrev empty_state : ClientState
empty_state = record {
  accounts = [];
  protocol_fees = record { deposit_fee = none; withdraw_fee = none };
}

start-Holds :
    Holds node
      (expected_nullifier_hash fr hashes keccak identity)
      (start_account fr hashes keccak identity (λ token. 0) empty_state native (some 7))
      (from_event 9 (new_account_event opening) ∷ [])
      before
unfolding account_of lookup zk_os_monorepo.Account.State.new expected_nullifier_hash
    previous_nullifier derive_nullifier nullifier_preimage u256_to_field field_to_u256 from_le_bytes
    to_le_bytes from_be_bytes to_be_bytes get_shielder_action get_block_of_nullifier_spending
    find_action check_transaction check_if_tx_is_shielder_action from_event register_action
    checked_add256 sub256 token_eq action_token from_address
start-Holds = acted 9 (new_account_event opening) refl refl (ended refl)

recover_state_lem_example :
    (next : ClientState) × (recover_state fr hashes keccak identity node
        (λ token. 0)
        2
        empty_state
        native
        (some 7)
      ≡ ok next)
    × (account_of next native ≡ some before)
recover_state_lem_example =
    recover_state_lem fr hashes keccak identity node (λ token. 0) 2 empty_state native (some 7)
      before (from_event 9 (new_account_event opening) ∷ []) start-Holds (omega arith)
