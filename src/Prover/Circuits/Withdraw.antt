-- ===== src/Prover/Circuits/Withdraw.antt =====
-- tee/crates/shielder-prover-tee/src/circuits/withdraw.rs. JSON is a parameter, as are the keys and the
-- proof of a knowledge.
use zk_os_monorepo.Base.{ℕ, Option, some, List}
use zk_os_monorepo.Base.Options.{◌>>=◌}
use zk_os_monorepo.Conversions.{Field, field_to_bytes}
use zk_os_monorepo.Calls.Knowledge.{WithdrawProverKnowledge, WithdrawInstance, Circuits}
use zk_os_monorepo.Prover.Server.{SerializableCircuit}
use zk_os_monorepo.Prover.Circuits.{vec_to_f, vec_to_path}

pub record WithdrawPubInputsBytes : Type 0 where
  pub merkle_root : List ℕ
  pub h_nullifier_old : List ℕ
  pub h_note_new : List ℕ
  pub withdrawal_value : List ℕ
  pub token_address : List ℕ
  pub commitment : List ℕ
  pub mac_salt : List ℕ
  pub mac_commitment : List ℕ

pub record WithdrawProveInputsBytes : Type 0 where
  pub id : List ℕ
  pub nullifier_old : List ℕ
  pub account_balance_old : List ℕ
  pub token_address : List ℕ
  pub path : List ℕ
  pub value : List ℕ
  pub nullifier_new : List ℕ
  pub commitment : List ℕ
  pub mac_salt : List ℕ

module _ (f : Field) (from_repr : List ℕ → Option f.Fr) (circuits : Circuits f) where
  -- `From<WithdrawProverKnowledge<Fr>>`
  unfoldable pub withdraw_pub_inputs_bytes : WithdrawProverKnowledge f.Fr → WithdrawPubInputsBytes
  withdraw_pub_inputs_bytes knowledge =
      let input =
        λ (i : WithdrawInstance). field_to_bytes f (circuits.withdraw_input knowledge i) in
      record {
        merkle_root = input WithdrawInstance.merkle_root;
        h_nullifier_old = input WithdrawInstance.hashed_old_nullifier;
        h_note_new = input WithdrawInstance.hashed_new_note;
        withdrawal_value = input WithdrawInstance.withdrawal_value;
        token_address = input WithdrawInstance.token_address;
        commitment = input WithdrawInstance.commitment;
        mac_salt = input WithdrawInstance.mac_salt;
        mac_commitment = input WithdrawInstance.mac_commitment;
      }

  -- The knowledge that `prove` and `pub_inputs` make of their input.
  unfoldable pub read_withdraw_knowledge :
      WithdrawProveInputsBytes → Option (WithdrawProverKnowledge f.Fr)
  read_withdraw_knowledge bytes = do
    id ← vec_to_f f from_repr bytes.id
    nullifier_old ← vec_to_f f from_repr bytes.nullifier_old
    account_old_balance ← vec_to_f f from_repr bytes.account_balance_old
    token_address ← vec_to_f f from_repr bytes.token_address
    path ← vec_to_path f from_repr bytes.path
    withdrawal_value ← vec_to_f f from_repr bytes.value
    nullifier_new ← vec_to_f f from_repr bytes.nullifier_new
    commitment ← vec_to_f f from_repr bytes.commitment
    mac_salt ← vec_to_f f from_repr bytes.mac_salt
    some (record {
      id = id;
      nullifier_old = nullifier_old;
      account_old_balance = account_old_balance;
      token_address = token_address;
      path = path;
      withdrawal_value = withdrawal_value;
      nullifier_new = nullifier_new;
      commitment = commitment;
      mac_salt = mac_salt;
    })

  unfoldable pub withdraw_prove :
      (ℕ → WithdrawProverKnowledge f.Fr → List ℕ) → ℕ → WithdrawProveInputsBytes → Option (List ℕ)
  unfolding read_withdraw_knowledge
  withdraw_prove generate_proof draw bytes =
      read_withdraw_knowledge bytes >>= λ knowledge. some (generate_proof draw knowledge)

  unfoldable pub withdraw_pub_inputs : WithdrawProveInputsBytes → Option WithdrawPubInputsBytes
  unfolding read_withdraw_knowledge withdraw_pub_inputs_bytes
  withdraw_pub_inputs bytes =
      read_withdraw_knowledge bytes >>= λ knowledge. some (withdraw_pub_inputs_bytes knowledge)

  unfoldable pub withdraw_circuit :
      (ℕ → WithdrawProverKnowledge f.Fr → List ℕ)
      → (List ℕ → Option WithdrawProveInputsBytes)
      → (WithdrawPubInputsBytes → Option (List ℕ))
      → SerializableCircuit
  unfolding withdraw_prove withdraw_pub_inputs
  withdraw_circuit generate_proof deserialize to_vec = record {
    Input = WithdrawProveInputsBytes;
    Output = WithdrawPubInputsBytes;
    deserialize = deserialize;
    pub_inputs = withdraw_pub_inputs;
    prove = withdraw_prove generate_proof;
    to_vec = to_vec;
  }
