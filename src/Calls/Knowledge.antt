-- ===== src/Calls/Knowledge.antt =====
-- What a call of crates/shielder-account/src/call_data.rs proves, and how the call is put together.
-- The circuits and the prover, of the crate shielder_circuits, are parameters.
use zk_os_monorepo.Base.{ℕ, List, map}
use zk_os_monorepo.Base.Word.{sub256, add256}
use zk_os_monorepo.Conversions.{
  Field, u256_to_field, field_to_u256, address_to_field, field_to_address,
}
use zk_os_monorepo.Setup.Version.{ContractVersion, contract_version, to_bytes}
use zk_os_monorepo.Token.{Token, address, from_address}
use zk_os_monorepo.Account.State.{ShielderAccount, Hashes, next_nullifier, previous_nullifier}
use zk_os_monorepo.Calls.Types.{Point, NewAccountCall, DepositCall, WithdrawCall}
use zk_os_monorepo.Calls.Commitment.{
  new_account_commitment_hash, deposit_commitment_hash, withdraw_commitment_hash,
}

pub record NewAccountProverKnowledge (Fr : Type 0) : Type 0 where
  pub id : Fr
  pub nullifier : Fr
  pub initial_deposit : Fr
  pub commitment : Fr
  pub token_address : Fr
  pub encryption_salt : List ℕ
  pub anonymity_revoker_public_key_x : Fr
  pub anonymity_revoker_public_key_y : Fr
  pub mac_salt : Fr

pub record DepositProverKnowledge (Fr : Type 0) : Type 0 where
  pub id : Fr
  pub nullifier_old : Fr
  pub account_old_balance : Fr
  pub commitment : Fr
  pub token_address : Fr
  pub path : List (List Fr)
  pub deposit_value : Fr
  pub nullifier_new : Fr
  pub mac_salt : Fr

pub record WithdrawProverKnowledge (Fr : Type 0) : Type 0 where
  pub id : Fr
  pub nullifier_old : Fr
  pub account_old_balance : Fr
  pub token_address : Fr
  pub path : List (List Fr)
  pub withdrawal_value : Fr
  pub nullifier_new : Fr
  pub commitment : Fr
  pub mac_salt : Fr

pub data NewAccountInstance : Type 0 where
  hashed_note prenullifier initial_deposit commitment token_address : NewAccountInstance
  anonymity_revoker_public_key_x anonymity_revoker_public_key_y : NewAccountInstance
  encrypted_key_ciphertext1x encrypted_key_ciphertext1y : NewAccountInstance
  encrypted_key_ciphertext2x encrypted_key_ciphertext2y : NewAccountInstance
  mac_salt mac_commitment : NewAccountInstance

pub data DepositInstance : Type 0 where
  hashed_old_nullifier hashed_new_note merkle_root deposit_value : DepositInstance
  commitment token_address mac_salt mac_commitment : DepositInstance

pub data WithdrawInstance : Type 0 where
  withdrawal_value hashed_old_nullifier hashed_new_note merkle_root : WithdrawInstance
  commitment token_address mac_salt mac_commitment : WithdrawInstance

-- `field_element_to_le_bits`, and `compute_public_input` of each circuit.
pub record Circuits (f : Field) : Type 0 where
  pub field_element_to_le_bits : f.Fr → List ℕ
  pub new_account_input : NewAccountProverKnowledge f.Fr → NewAccountInstance → f.Fr
  pub deposit_input : DepositProverKnowledge f.Fr → DepositInstance → f.Fr
  pub withdraw_input : WithdrawProverKnowledge f.Fr → WithdrawInstance → f.Fr

pub record NewAccountCallExtra : Type 0 where
  pub anonymity_revoker_public_key : Point
  pub encryption_salt : ℕ
  pub mac_salt : ℕ
  pub caller_address : ℕ
  pub protocol_fee : ℕ
  pub memo : List ℕ

pub record DepositExtra : Type 0 where
  pub merkle_path : List (List ℕ)
  pub mac_salt : ℕ
  pub caller_address : ℕ
  pub protocol_fee : ℕ
  pub memo : List ℕ

pub record WithdrawExtra : Type 0 where
  pub merkle_path : List (List ℕ)
  pub to : ℕ
  pub relayer_address : ℕ
  pub relayer_fee : ℕ
  pub contract_version : ContractVersion
  pub chain_id : ℕ
  pub mac_salt : ℕ
  pub pocket_money : ℕ
  pub protocol_fee : ℕ
  pub memo : List ℕ

module _ (f : Field) (h : Hashes f) (keccak : List ℕ → List ℕ) (circuits : Circuits f) where
  unfoldable pub map_path_to_field : List (List ℕ) → List (List f.Fr)
  map_path_to_field path = map (map (u256_to_field f)) path

  unfoldable pub new_account_knowledge :
      ShielderAccount → Token → ℕ → NewAccountCallExtra → NewAccountProverKnowledge f.Fr
  new_account_knowledge account token amount extra =
      let hash =
        new_account_commitment_hash keccak
          (record { caller_address = extra.caller_address; protocol_fee = extra.protocol_fee }) in
      record {
        id = u256_to_field f account.id;
        nullifier = u256_to_field f (next_nullifier f h keccak account);
        initial_deposit = u256_to_field f (sub256 amount extra.protocol_fee);
        commitment = u256_to_field f hash;
        token_address = address_to_field f (address token);
        encryption_salt = circuits.field_element_to_le_bits (u256_to_field f extra.encryption_salt);
        anonymity_revoker_public_key_x = u256_to_field f extra.anonymity_revoker_public_key.x;
        anonymity_revoker_public_key_y = u256_to_field f extra.anonymity_revoker_public_key.y;
        mac_salt = u256_to_field f extra.mac_salt;
      }

  unfoldable pub new_account_call_data :
      NewAccountProverKnowledge f.Fr → List ℕ → NewAccountCallExtra → NewAccountCall
  new_account_call_data pk proof extra =
      let input = λ (i : NewAccountInstance). field_to_u256 f (circuits.new_account_input pk i) in
      record {
        amount = add256 (field_to_u256 f pk.initial_deposit) extra.protocol_fee;
        token = from_address (field_to_address f pk.token_address);
        expected_contract_version = to_bytes contract_version;
        new_note = input hashed_note;
        prenullifier = input prenullifier;
        sym_key_encryption_c1 = record {
          x = input encrypted_key_ciphertext1x;
          y = input encrypted_key_ciphertext1y;
        };
        sym_key_encryption_c2 = record {
          x = input encrypted_key_ciphertext2x;
          y = input encrypted_key_ciphertext2y;
        };
        mac_salt = input NewAccountInstance.mac_salt;
        mac_commitment = input NewAccountInstance.mac_commitment;
        proof = proof;
        memo = extra.memo;
      }

  unfoldable pub deposit_knowledge :
      ShielderAccount → Token → ℕ → DepositExtra → DepositProverKnowledge f.Fr
  unfolding map_path_to_field
  deposit_knowledge account token amount extra =
      let hash =
        deposit_commitment_hash keccak
          (record { caller_address = extra.caller_address; protocol_fee = extra.protocol_fee }) in
      record {
        id = u256_to_field f account.id;
        nullifier_old = u256_to_field f (previous_nullifier f h keccak account);
        account_old_balance = u256_to_field f account.shielded_amount;
        commitment = u256_to_field f hash;
        token_address = address_to_field f (address token);
        path = map_path_to_field extra.merkle_path;
        deposit_value = u256_to_field f (sub256 amount extra.protocol_fee);
        nullifier_new = u256_to_field f (next_nullifier f h keccak account);
        mac_salt = u256_to_field f extra.mac_salt;
      }

  unfoldable pub deposit_call_data :
      DepositProverKnowledge f.Fr → List ℕ → DepositExtra → DepositCall
  deposit_call_data pk proof extra =
      let input = λ (i : DepositInstance). field_to_u256 f (circuits.deposit_input pk i) in
      record {
        amount = add256 (field_to_u256 f pk.deposit_value) extra.protocol_fee;
        token = from_address (field_to_address f pk.token_address);
        expected_contract_version = to_bytes contract_version;
        old_nullifier_hash = input DepositInstance.hashed_old_nullifier;
        new_note = input DepositInstance.hashed_new_note;
        merkle_root = input DepositInstance.merkle_root;
        mac_salt = input DepositInstance.mac_salt;
        mac_commitment = input DepositInstance.mac_commitment;
        proof = proof;
        memo = extra.memo;
      }

  unfoldable pub withdraw_knowledge :
      ShielderAccount → Token → ℕ → WithdrawExtra → WithdrawProverKnowledge f.Fr
  unfolding map_path_to_field
  withdraw_knowledge account token amount extra =
      let hash = withdraw_commitment_hash keccak (record {
        contract_version = extra.contract_version;
        withdraw_address = extra.to;
        relayer_address = extra.relayer_address;
        relayer_fee = extra.relayer_fee;
        chain_id = extra.chain_id;
        pocket_money = extra.pocket_money;
        protocol_fee = extra.protocol_fee;
        memo = extra.memo;
      }) in
      record {
        id = u256_to_field f account.id;
        nullifier_old = u256_to_field f (previous_nullifier f h keccak account);
        account_old_balance = u256_to_field f account.shielded_amount;
        token_address = address_to_field f (address token);
        path = map_path_to_field extra.merkle_path;
        withdrawal_value = u256_to_field f amount;
        nullifier_new = u256_to_field f (next_nullifier f h keccak account);
        commitment = u256_to_field f hash;
        mac_salt = u256_to_field f extra.mac_salt;
      }

  unfoldable pub withdraw_call_data :
      WithdrawProverKnowledge f.Fr → List ℕ → WithdrawExtra → WithdrawCall
  withdraw_call_data pk proof extra =
      let input = λ (i : WithdrawInstance). field_to_u256 f (circuits.withdraw_input pk i) in
      record {
        amount = input withdrawal_value;
        token = from_address (field_to_address f pk.token_address);
        expected_contract_version = to_bytes contract_version;
        withdrawal_address = extra.to;
        relayer_address = extra.relayer_address;
        merkle_root = input WithdrawInstance.merkle_root;
        old_nullifier_hash = input WithdrawInstance.hashed_old_nullifier;
        new_note = input WithdrawInstance.hashed_new_note;
        relayer_fee = extra.relayer_fee;
        mac_salt = input WithdrawInstance.mac_salt;
        mac_commitment = input WithdrawInstance.mac_commitment;
        proof = proof;
        pocket_money = extra.pocket_money;
        memo = extra.memo;
      }

  -- `prepare_call` of each call type; the prover makes the proof from the knowledge.
  unfoldable pub prepare_new_account :
      (NewAccountProverKnowledge f.Fr → List ℕ)
      → ShielderAccount
      → Token
      → ℕ
      → NewAccountCallExtra
      → NewAccountCall
  unfolding new_account_knowledge new_account_call_data
  prepare_new_account generate_proof account token amount extra =
      let pk = new_account_knowledge account token amount extra in
      new_account_call_data pk (generate_proof pk) extra

  unfoldable pub prepare_deposit :
      (DepositProverKnowledge f.Fr → List ℕ)
      → ShielderAccount
      → Token
      → ℕ
      → DepositExtra
      → DepositCall
  unfolding deposit_knowledge deposit_call_data
  prepare_deposit generate_proof account token amount extra =
      let pk = deposit_knowledge account token amount extra in
      deposit_call_data pk (generate_proof pk) extra

  unfoldable pub prepare_withdraw :
      (WithdrawProverKnowledge f.Fr → List ℕ)
      → ShielderAccount
      → Token
      → ℕ
      → WithdrawExtra
      → WithdrawCall
  unfolding withdraw_knowledge withdraw_call_data
  prepare_withdraw generate_proof account token amount extra =
      let pk = withdraw_knowledge account token amount extra in
      withdraw_call_data pk (generate_proof pk) extra
