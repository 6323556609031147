-- ===== src/Prover/Circuits/Deposit.antt =====
-- tee/crates/shielder-prover-tee/src/circuits/deposit.rs. JSON is a parameter, as are the keys and the
-- proof of a knowledge.
use zk_os_monorepo.Base.{ℕ, Option, some, List}
use zk_os_monorepo.Base.Options.{◌>>=◌}
use zk_os_monorepo.Conversions.{Field, field_to_bytes}
use zk_os_monorepo.Calls.Knowledge.{DepositProverKnowledge, DepositInstance, Circuits}
use zk_os_monorepo.Prover.Server.{SerializableCircuit}
use zk_os_monorepo.Prover.Circuits.{vec_to_f, vec_to_path}

pub record DepositPubInputsBytes : Type 0 where
  pub merkle_root : List ℕ
  pub h_nullifier_old : List ℕ
  pub h_note_new : List ℕ
  pub value : List ℕ
  pub commitment : List ℕ
  pub token_address : List ℕ
  pub mac_salt : List ℕ
  pub mac_commitment : List ℕ

pub record DepositProveInputBytes : Type 0 where
  pub id : List ℕ
  pub nullifier_old : List ℕ
  pub account_balance_old : List ℕ
  pub token_address : List ℕ
  pub path : List ℕ
  pub value : List ℕ
  pub commitment : List ℕ
  pub nullifier_new : List ℕ
  pub mac_salt : List ℕ

module _ (f : Field) (from_repr : List ℕ → Option f.Fr) (circuits : Circuits f) where
  -- `From<DepositProverKnowledge<Fr>>`
  unfoldable pub deposit_pub_inputs_bytes : DepositProverKnowledge f.Fr → DepositPubInputsBytes
  deposit_pub_inputs_bytes knowledge =
      let input = λ (i : DepositInstance). field_to_bytes f (circuits.deposit_input knowledge i) in
      record {
        merkle_root = input DepositInstance.merkle_root;
        h_nullifier_old = input DepositInstance.hashed_old_nullifier;
        h_note_new = input DepositInstance.hashed_new_note;
        value = input DepositInstance.deposit_value;
        commitment = input DepositInstance.commitment;
        token_address = input DepositInstance.token_address;
        mac_salt = input DepositInstance.mac_salt;
        mac_commitment = input DepositInstance.mac_commitment;
      }

  -- The knowledge that `prove` and `pub_inputs` make of their input.
  unfoldable pub read_deposit_knowledge :
      DepositProveInputBytes → Option (DepositProverKnowledge f.Fr)
  read_deposit_knowledge bytes = do
    id ← vec_to_f f from_repr bytes.id
    nullifier_old ← vec_to_f f from_repr bytes.nullifier_old
    account_old_balance ← vec_to_f f from_repr bytes.account_balance_old
    token_address ← vec_to_f f from_repr bytes.token_address
    path ← vec_to_path f from_repr bytes.path
    deposit_value ← vec_to_f f from_repr bytes.value
    commitment ← vec_to_f f from_repr bytes.commitment
    nullifier_new ← vec_to_f f from_repr bytes.nullifier_new
    mac_salt ← vec_to_f f from_repr bytes.mac_salt
    some (record {
      id = id;
      nullifier_old = nullifier_old;
      account_old_balance = account_old_balance;
      commitment = commitment;
      token_address = token_address;
      path = path;
      deposit_value = deposit_value;
      nullifier_new = nullifier_new;
      mac_salt = mac_salt;
    })

  unfoldable pub deposit_prove :
      (ℕ → DepositProverKnowledge f.Fr → List ℕ) → ℕ → DepositProveInputBytes → Option (List ℕ)
  unfolding read_deposit_knowledge
  deposit_prove generate_proof draw bytes =
      read_deposit_knowledge bytes >>= λ knowledge. some (generate_proof draw knowledge)

  unfoldable pub deposit_pub_inputs : DepositProveInputBytes → Option DepositPubInputsBytes
  unfolding read_deposit_knowledge deposit_pub_inputs_bytes
  deposit_pub_inputs bytes =
      read_deposit_knowledge bytes >>= λ knowledge. some (deposit_pub_inputs_bytes knowledge)

  unfoldable pub deposit_circuit :
      (ℕ → DepositProverKnowledge f.Fr → List ℕ)
      → (List ℕ → Option DepositProveInputBytes)
      → (DepositPubInputsBytes → Option (List ℕ))
      → SerializableCircuit
  unfolding deposit_prove deposit_pub_inputs
  deposit_circuit generate_proof deserialize to_vec = record {
    Input = DepositProveInputBytes;
    Output = DepositPubInputsBytes;
    deserialize = deserialize;
    pub_inputs = deposit_pub_inputs;
    prove = deposit_prove generate_proof;
    to_vec = to_vec;
  }
