-- ===== src/Tests/Remote.antt =====
-- The circuits of the enclave over the field of seven elements, with representations of 32 bytes, and
-- inputs that are encoded as lists.
use zk_os_monorepo.Base.{
  ℕ, zero, suc, ◌%◌, ◌≡◌, refl, Option, none, some, List, [], ◌∷◌, ◌++◌, length, replicate,
}
use zk_os_monorepo.Base.Bytes.{from_le_bytes}
use zk_os_monorepo.Conversions.{Field, u256_to_field}
use zk_os_monorepo.Outcome.{ok}
use zk_os_monorepo.Token.{native}
use zk_os_monorepo.Account.State.{ShielderAccount, Hashes}
use zk_os_monorepo.Setup.Version.{contract_version}
use zk_os_monorepo.Calls.Knowledge.{
  NewAccountProverKnowledge, DepositProverKnowledge, WithdrawProverKnowledge, Circuits,
  NewAccountCallExtra, DepositExtra, WithdrawExtra, new_account_knowledge, deposit_knowledge,
  withdraw_knowledge, prepare_new_account, prepare_deposit, prepare_withdraw,
}
use zk_os_monorepo.Prover.Server.{compute_proof_for_circuit}
use zk_os_monorepo.Prover.Circuits.Deposit.{
  DepositPubInputsBytes, deposit_pub_inputs_bytes, deposit_circuit,
}
use zk_os_monorepo.Prover.Circuits.Withdraw.{
  WithdrawPubInputsBytes, withdraw_pub_inputs_bytes, withdraw_circuit,
}
use zk_os_monorepo.Prover.Circuits.NewAccount.{
  NewAccountPubInputsBytes, new_account_pub_inputs_bytes, new_account_circuit,
}
use zk_os_monorepo.Prover.Circuits.Encoded.{
  HasRepr, AllLong, IsPath, deposit_bytes, withdraw_bytes, new_account_bytes,
}
use zk_os_monorepo.Prover.Circuits.Remote.{remote_deposit, remote_withdraw, remote_new_account}
use zk_os_monorepo.Tests.Inputs.{
  deserialize, deserialize_back, deposit_codec, withdraw_codec, new_account_codec,
}
use zk_os_monorepo.Tests.PowersOfTau.{
  Seven, c1, to_number, element_at, elements, or_zero, repr_back,
}

abbrev fr7 : Field
fr7 = record {
  Fr = Seven;
  from_limbs = λ n. or_zero (element_at elements (n % 7));
  to_repr = λ x. to_number x ∷ replicate 31 0;
}

abbrev from_repr : List ℕ → Option Seven
from_repr [] = none
from_repr (n ∷ bytes) = element_at elements n

from_repr_back : (x : Seven) → from_repr (to_number x ∷ replicate 31 0) ≡ some x
from_repr_back x = repr_back x

abbrev has_repr : HasRepr fr7 from_repr
has_repr = record { repr_length = λ x. refl; repr_back = from_repr_back }

abbrev hashes : Hashes fr7
hashes = record { generate_user_id = λ bytes. c1; note_hash = λ note. note.nullifier }

abbrev keccak : List ℕ → List ℕ
keccak bytes = bytes

abbrev circuits : Circuits fr7
circuits = record {
  field_element_to_le_bits = λ x. to_number x ∷ [];
  new_account_input = λ pk i. pk.nullifier;
  deposit_input = λ pk i. pk.nullifier_new;
  withdraw_input = λ pk i. pk.withdrawal_value;
}

abbrev account : ShielderAccount
account = record { id = 3; token = native; nonce = 1; shielded_amount = 5; history = [] }

abbrev path : List (List ℕ)
path = replicate 13 (replicate 7 4)

AllLong-replicate : (n m : ℕ) (row : List ℕ) → length row ≡ n → AllLong n (replicate m row)
AllLong-replicate n zero row h = tt
AllLong-replicate n (suc m) row h = (h, AllLong-replicate n m row h)

path-IsPath : IsPath path
path-IsPath = (refl, AllLong-replicate 7 13 (replicate 7 4) refl)

abbrev deposit_extra : DepositExtra
deposit_extra = record {
  merkle_path = path;
  mac_salt = 2;
  caller_address = 8;
  protocol_fee = 1;
  memo = [];
}

abbrev withdraw_extra : WithdrawExtra
withdraw_extra = record {
  merkle_path = path;
  to = 9;
  relayer_address = 10;
  relayer_fee = 1;
  contract_version = contract_version;
  chain_id = 5;
  mac_salt = 2;
  pocket_money = 0;
  protocol_fee = 1;
  memo = [];
}

abbrev new_account_extra : NewAccountCallExtra
new_account_extra = record {
  anonymity_revoker_public_key = record { x = 1; y = 2 };
  encryption_salt = 3;
  mac_salt = 2;
  caller_address = 8;
  protocol_fee = 1;
  memo = [];
}

abbrev prove_deposit : ℕ → DepositProverKnowledge Seven → List ℕ
prove_deposit draw pk = draw ∷ to_number pk.nullifier_new ∷ []

abbrev deposit_pk : DepositProverKnowledge Seven
deposit_pk = deposit_knowledge fr7 hashes keccak circuits account native 4 deposit_extra

abbrev deposit_to_vec : DepositPubInputsBytes → Option (List ℕ)
deposit_to_vec p = some (p.merkle_root ++ p.h_note_new ++ p.mac_commitment)

abbrev deposit_returned : DepositPubInputsBytes
deposit_returned = deposit_pub_inputs_bytes fr7 from_repr circuits deposit_pk

abbrev deposit_inputs : List ℕ
deposit_inputs = deposit_codec.put (deposit_bytes fr7 from_repr has_repr deposit_pk) []

remote_deposit_example :
    (let call =
        prepare_deposit fr7 hashes keccak circuits
          (prove_deposit 6)
          account
          native
          4
          deposit_extra in
      let p = deposit_returned in
      (compute_proof_for_circuit
          (deposit_circuit fr7 from_repr circuits prove_deposit
            (deserialize deposit_codec)
            deposit_to_vec)
          6
          deposit_inputs
        ≡ ok (call.proof, p.merkle_root ++ p.h_note_new ++ p.mac_commitment))
      × (from_le_bytes p.merkle_root ≡ call.merkle_root)
      × (from_le_bytes p.h_nullifier_old ≡ call.old_nullifier_hash)
      × (from_le_bytes p.h_note_new ≡ call.new_note)
      × (from_le_bytes p.mac_salt ≡ call.mac_salt)
      × (from_le_bytes p.mac_commitment ≡ call.mac_commitment))
remote_deposit_example =
    remote_deposit fr7 from_repr has_repr hashes keccak circuits prove_deposit
      (deserialize deposit_codec) deposit_to_vec account native 4 deposit_extra 6 deposit_inputs
      (let p = deposit_returned in p.merkle_root ++ p.h_note_new ++ p.mac_commitment) path-IsPath
      (deserialize_back deposit_codec (deposit_bytes fr7 from_repr has_repr deposit_pk)) refl

abbrev prove_withdraw : ℕ → WithdrawProverKnowledge Seven → List ℕ
prove_withdraw draw pk = draw ∷ to_number pk.withdrawal_value ∷ []

abbrev withdraw_pk : WithdrawProverKnowledge Seven
withdraw_pk = withdraw_knowledge fr7 hashes keccak circuits account native 4 withdraw_extra

abbrev withdraw_to_vec : WithdrawPubInputsBytes → Option (List ℕ)
withdraw_to_vec p = some (p.merkle_root ++ p.h_note_new ++ p.mac_commitment)

abbrev withdraw_returned : WithdrawPubInputsBytes
withdraw_returned = withdraw_pub_inputs_bytes fr7 from_repr circuits withdraw_pk

abbrev withdraw_inputs : List ℕ
withdraw_inputs = withdraw_codec.put (withdraw_bytes fr7 from_repr has_repr withdraw_pk) []

remote_withdraw_example :
    (let call =
        prepare_withdraw fr7 hashes keccak circuits
          (prove_withdraw 6)
          account
          native
          4
          withdraw_extra in
      let p = withdraw_returned in
      (compute_proof_for_circuit
          (withdraw_circuit fr7 from_repr circuits prove_withdraw
            (deserialize withdraw_codec)
            withdraw_to_vec)
          6
          withdraw_inputs
        ≡ ok (call.proof, p.merkle_root ++ p.h_note_new ++ p.mac_commitment))
      × (from_le_bytes p.withdrawal_value ≡ call.amount)
      × (from_le_bytes p.merkle_root ≡ call.merkle_root)
      × (from_le_bytes p.h_nullifier_old ≡ call.old_nullifier_hash)
      × (from_le_bytes p.h_note_new ≡ call.new_note)
      × (from_le_bytes p.mac_salt ≡ call.mac_salt)
      × (from_le_bytes p.mac_commitment ≡ call.mac_commitment))
remote_withdraw_example =
    remote_withdraw fr7 from_repr has_repr hashes keccak circuits prove_withdraw
      (deserialize withdraw_codec) withdraw_to_vec account native 4 withdraw_extra 6 withdraw_inputs
      (let p = withdraw_returned in p.merkle_root ++ p.h_note_new ++ p.mac_commitment) path-IsPath
      (deserialize_back withdraw_codec (withdraw_bytes fr7 from_repr has_repr withdraw_pk)) refl

abbrev prove_new_account : ℕ → NewAccountProverKnowledge Seven → List ℕ
prove_new_account draw pk = draw ∷ to_number pk.nullifier ∷ []

abbrev new_account_pk : NewAccountProverKnowledge Seven
new_account_pk = new_account_knowledge fr7 hashes keccak circuits account native 4 new_account_extra

abbrev new_account_to_vec : NewAccountPubInputsBytes → Option (List ℕ)
new_account_to_vec p = some (p.hashed_note ++ p.prenullifier ++ p.mac_commitment)

abbrev new_account_returned : NewAccountPubInputsBytes
new_account_returned = new_account_pub_inputs_bytes fr7 from_repr circuits new_account_pk

abbrev new_account_inputs : List ℕ
new_account_inputs =
    new_account_codec.put
      (new_account_bytes fr7 from_repr has_repr new_account_pk (u256_to_field fr7 3)) []

remote_new_account_example :
    (let call =
        prepare_new_account fr7 hashes keccak circuits
          (prove_new_account 6)
          account
          native
          4
          new_account_extra in
      let p = new_account_returned in
      (compute_proof_for_circuit
          (new_account_circuit fr7 from_repr circuits prove_new_account
            (deserialize new_account_codec)
            new_account_to_vec)
          6
          new_account_inputs
        ≡ ok (call.proof, p.hashed_note ++ p.prenullifier ++ p.mac_commitment))
      × (from_le_bytes p.hashed_note ≡ call.new_note)
      × (from_le_bytes p.prenullifier ≡ call.prenullifier)
      × (from_le_bytes p.sym_key_encryption_1_x ≡ call.sym_key_encryption_c1.x)
      × (from_le_bytes p.sym_key_encryption_1_y ≡ call.sym_key_encryption_c1.y)
      × (from_le_bytes p.sym_key_encryption_2_x ≡ call.sym_key_encryption_c2.x)
      × (from_le_bytes p.sym_key_encryption_2_y ≡ call.sym_key_encryption_c2.y)
      × (from_le_bytes p.mac_salt ≡ call.mac_salt)
      × (from_le_bytes p.mac_commitment ≡ call.mac_commitment))
remote_new_account_example =
    remote_new_account fr7 from_repr has_repr hashes keccak circuits prove_new_account
      (deserialize new_account_codec) new_account_to_vec account native 4 new_account_extra 6
      new_account_inputs
      (let p = new_account_returned in p.hashed_note ++ p.prenullifier ++ p.mac_commitment)
      (deserialize_back new_account_codec
        (new_account_bytes fr7 from_repr has_repr new_account_pk (u256_to_field fr7 3)))
      refl
