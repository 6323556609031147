-- ===== src/Prover/Circuits/Remote.antt =====
-- A call whose proof is made by the circuits of tee/crates/shielder-prover-tee/src/circuits, compared
-- with the call that crates/shielder-account/src/call_data.rs prepares with a prover of its own.
use zk_os_monorepo.Base.{ℕ, ◌≡◌, refl, Option, some, List}
use zk_os_monorepo.Base.Bytes.{from_le_bytes}
use zk_os_monorepo.Conversions.{Field, field_to_u256, field_to_bytes, u256_to_field}
use zk_os_monorepo.Outcome.{ok}
use zk_os_monorepo.Token.{Token}
use zk_os_monorepo.Account.State.{ShielderAccount, Hashes}
use zk_os_monorepo.Calls.Knowledge.{
  NewAccountProverKnowledge, DepositProverKnowledge, WithdrawProverKnowledge, Circuits,
  NewAccountCallExtra, DepositExtra, WithdrawExtra, new_account_knowledge, deposit_knowledge,
  withdraw_knowledge, prepare_new_account, prepare_deposit, prepare_withdraw,
}
use zk_os_monorepo.Prover.Server.{compute_proof_for_circuit}
use zk_os_monorepo.Prover.Circuits.Deposit.{
  DepositProveInputBytes, DepositPubInputsBytes, deposit_pub_inputs_bytes, deposit_circuit,
}
use zk_os_monorepo.Prover.Circuits.Withdraw.{
  WithdrawProveInputsBytes, WithdrawPubInputsBytes, withdraw_pub_inputs_bytes, withdraw_circuit,
}
use zk_os_monorepo.Prover.Circuits.NewAccount.{
  NewAccountProveInputsBytes, NewAccountPubInputsBytes, new_account_pub_inputs_bytes,
  new_account_circuit,
}
use zk_os_monorepo.Prover.Circuits.Encoded.{
  HasRepr, IsPath, IsPath-map, deposit_bytes, withdraw_bytes, new_account_bytes, read-deposit_bytes,
  read-withdraw_bytes, read-new_account_bytes,
}

module _ (f : Field) (from_repr : List ℕ → Option f.Fr) (c : HasRepr f from_repr) (h : Hashes f)
    (keccak : List ℕ → List ℕ) (circuits : Circuits f) where
  -- If the enclave is sent the bytes of the knowledge of a deposit with a path of the tree's shape,
  -- then its proof is that of the call prepared by a local prover with the same draws, and the public
  -- inputs that it returns hold the numbers of that call.
  pub remote_deposit :
      (generate_proof : ℕ → DepositProverKnowledge f.Fr → List ℕ)
      (deserialize : List ℕ → Option DepositProveInputBytes)
      (to_vec : DepositPubInputsBytes → Option (List ℕ)) (account : ShielderAccount) (token : Token)
      (amount : ℕ) (extra : DepositExtra) (draw : ℕ) (inputs output : List ℕ)
      → IsPath extra.merkle_path
      → deserialize inputs
        ≡ some (
            deposit_bytes f from_repr c
              (deposit_knowledge f h keccak circuits account token amount extra))
      → to_vec (
          deposit_pub_inputs_bytes f from_repr circuits
            (deposit_knowledge f h keccak circuits account token amount extra))
        ≡ some output
      → (let returned =
            deposit_pub_inputs_bytes f from_repr circuits
              (deposit_knowledge f h keccak circuits account token amount extra) in
          let call =
            prepare_deposit f h keccak circuits (generate_proof draw) account token amount extra in
          (compute_proof_for_circuit
              (deposit_circuit f from_repr circuits generate_proof deserialize to_vec)
              draw
              inputs
            ≡ ok (call.proof, output))
          × (from_le_bytes returned.merkle_root ≡ call.merkle_root)
          × (from_le_bytes returned.h_nullifier_old ≡ call.old_nullifier_hash)
          × (from_le_bytes returned.h_note_new ≡ call.new_note)
          × (from_le_bytes returned.mac_salt ≡ call.mac_salt)
          × (from_le_bytes returned.mac_commitment ≡ call.mac_commitment))
  unfolding compute_proof_for_circuit prepare_deposit field_to_u256 field_to_bytes deposit_circuit
  remote_deposit generate_proof deserialize to_vec account token amount extra draw inputs output
        shape sent returned =
      let pk = deposit_knowledge f h keccak circuits account token amount extra in
      let read =
        read-deposit_bytes f from_repr c circuits pk
          (IsPath-map (u256_to_field f) extra.merkle_path shape) in
      (rw sent (rw read (rw returned refl)), refl, refl, refl, refl, refl)

  -- If the enclave is sent the bytes of the knowledge of a withdrawal with a path of the tree's shape,
  -- then its proof is that of the call prepared by a local prover with the same draws, and the public
  -- inputs that it returns hold the numbers of that call, the amount among them.
  pub remote_withdraw :
      (generate_proof : ℕ → WithdrawProverKnowledge f.Fr → List ℕ)
      (deserialize : List ℕ → Option WithdrawProveInputsBytes)
      (to_vec : WithdrawPubInputsBytes → Option (List ℕ)) (account : ShielderAccount)
      (token : Token) (amount : ℕ) (extra : WithdrawExtra) (draw : ℕ) (inputs output : List ℕ)
      → IsPath extra.merkle_path
      → deserialize inputs
        ≡ some (
            withdraw_bytes f from_repr c
              (withdraw_knowledge f h keccak circuits account token amount extra))
      → to_vec (
          withdraw_pub_inputs_bytes f from_repr circuits
            (withdraw_knowledge f h keccak circuits account token amount extra))
        ≡ some output
      → (let returned =
            withdraw_pub_inputs_bytes f from_repr circuits
              (withdraw_knowledge f h keccak circuits account token amount extra) in
          let call =
            prepare_withdraw f h keccak circuits (generate_proof draw) account token amount extra in
          (compute_proof_for_circuit
              (withdraw_circuit f from_repr circuits generate_proof deserialize to_vec)
              draw
              inputs
            ≡ ok (call.proof, output))
          × (from_le_bytes returned.withdrawal_value ≡ call.amount)
          × (from_le_bytes returned.merkle_root ≡ call.merkle_root)
          × (from_le_bytes returned.h_nullifier_old ≡ call.old_nullifier_hash)
          × (from_le_bytes returned.h_note_new ≡ call.new_note)
          × (from_le_bytes returned.mac_salt ≡ call.mac_salt)
          × (from_le_bytes returned.mac_commitment ≡ call.mac_commitment))
  unfolding compute_proof_for_circuit prepare_withdraw field_to_u256 field_to_bytes withdraw_circuit
  remote_withdraw generate_proof deserialize to_vec account token amount extra draw inputs output
        shape sent returned =
      let pk = withdraw_knowledge f h keccak circuits account token amount extra in
      let read =
        read-withdraw_bytes f from_repr c circuits pk
          (IsPath-map (u256_to_field f) extra.merkle_path shape) in
      (rw sent (rw read (rw returned refl)), refl, refl, refl, refl, refl, refl)

  -- If the enclave is sent the bytes of the knowledge of a new account, with the salt of its encryption
  -- as a field element, then its proof is that of the call prepared by a local prover with the same
  -- draws, and the public inputs that it returns hold the numbers of that call.
  pub remote_new_account :
      (generate_proof : ℕ → NewAccountProverKnowledge f.Fr → List ℕ)
      (deserialize : List ℕ → Option NewAccountProveInputsBytes)
      (to_vec : NewAccountPubInputsBytes → Option (List ℕ)) (account : ShielderAccount)
      (token : Token) (amount : ℕ) (extra : NewAccountCallExtra) (draw : ℕ) (inputs output : List ℕ)
      → deserialize inputs
        ≡ some (
            new_account_bytes f from_repr c
              (new_account_knowledge f h keccak circuits account token amount extra)
              (u256_to_field f extra.encryption_salt))
      → to_vec (
          new_account_pub_inputs_bytes f from_repr circuits
            (new_account_knowledge f h keccak circuits account token amount extra))
        ≡ some output
      → (let returned =
            new_account_pub_inputs_bytes f from_repr circuits
              (new_account_knowledge f h keccak circuits account token amount extra) in
          let call =
            prepare_new_account f h keccak circuits
              (generate_proof draw)
              account
              token
              amount
              extra in
          (compute_proof_for_circuit
              (new_account_circuit f from_repr circuits generate_proof deserialize to_vec)
              draw
              inputs
            ≡ ok (call.proof, output))
          × (from_le_bytes returned.hashed_note ≡ call.new_note)
          × (from_le_bytes returned.prenullifier ≡ call.prenullifier)
          × (from_le_bytes returned.sym_key_encryption_1_x ≡ call.sym_key_encryption_c1.x)
          × (from_le_bytes returned.sym_key_encryption_1_y ≡ call.sym_key_encryption_c1.y)
          × (from_le_bytes returned.sym_key_encryption_2_x ≡ call.sym_key_encryption_c2.x)
          × (from_le_bytes returned.sym_key_encryption_2_y ≡ call.sym_key_encryption_c2.y)
          × (from_le_bytes returned.mac_salt ≡ call.mac_salt)
          × (from_le_bytes returned.mac_commitment ≡ call.mac_commitment))
  unfolding compute_proof_for_circuit prepare_new_account field_to_u256 field_to_bytes
      new_account_circuit
  remote_new_account generate_proof deserialize to_vec account token amount extra draw inputs output
        sent returned =
      let pk = new_account_knowledge f h keccak circuits account token amount extra in
      let read =
        read-new_account_bytes f from_repr c circuits pk (u256_to_field f extra.encryption_salt)
          refl in
      (rw sent (rw read (rw returned refl)), refl, refl, refl, refl, refl, refl, refl, refl)
