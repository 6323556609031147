-- ===== src/Prover/Circuits/NewAccount.antt =====
-- tee/crates/shielder-prover-tee/src/circuits/new_account.rs. JSON is a parameter, as are the keys and
-- the proof of a knowledge.
use zk_os_monorepo.Base.{ℕ, Option, some, List}
use zk_os_monorepo.Base.Options.{◌>>=◌}
use zk_os_monorepo.Conversions.{Field, field_to_bytes}
use zk_os_monorepo.Calls.Knowledge.{NewAccountProverKnowledge, NewAccountInstance, Circuits}
use zk_os_monorepo.Prover.Server.{SerializableCircuit}
use zk_os_monorepo.Prover.Circuits.{vec_to_f}

pub record NewAccountPubInputsBytes : Type 0 where
  pub hashed_note : List ℕ
  pub prenullifier : List ℕ
  pub initial_deposit : List ℕ
  pub commitment : List ℕ
  pub token_address : List ℕ
  pub anonymity_revoker_public_key_x : List ℕ
  pub anonymity_revoker_public_key_y : List ℕ
  pub sym_key_encryption_1_x : List ℕ
  pub sym_key_encryption_1_y : List ℕ
  pub sym_key_encryption_2_x : List ℕ
  pub sym_key_encryption_2_y : List ℕ
  pub mac_salt : List ℕ
  pub mac_commitment : List ℕ

pub record NewAccountProveInputsBytes : Type 0 where
  pub id : List ℕ
  pub nullifier : List ℕ
  pub initial_deposit : List ℕ
  pub commitment : List ℕ
  pub token_address : List ℕ
  pub encryption_salt : List ℕ
  pub mac_salt : List ℕ
  pub anonymity_revoker_public_key_x : List ℕ
  pub anonymity_revoker_public_key_y : List ℕ

module _ (f : Field) (from_repr : List ℕ → Option f.Fr) (circuits : Circuits f) where
  -- `From<NewAccountProverKnowledge<Fr>>`
  unfoldable pub new_account_pub_inputs_bytes :
      NewAccountProverKnowledge f.Fr → NewAccountPubInputsBytes
  new_account_pub_inputs_bytes knowledge =
      let input =
        λ (i : NewAccountInstance). field_to_bytes f (circuits.new_account_input knowledge i) in
      record {
        hashed_note = input NewAccountInstance.hashed_note;
        prenullifier = input NewAccountInstance.prenullifier;
        initial_deposit = input NewAccountInstance.initial_deposit;
        commitment = input NewAccountInstance.commitment;
        token_address = input NewAccountInstance.token_address;
        anonymity_revoker_public_key_x = input NewAccountInstance.anonymity_revoker_public_key_x;
        anonymity_revoker_public_key_y = input NewAccountInstance.anonymity_revoker_public_key_y;
        sym_key_encryption_1_x = input NewAccountInstance.encrypted_key_ciphertext1x;
        sym_key_encryption_1_y = input NewAccountInstance.encrypted_key_ciphertext1y;
        sym_key_encryption_2_x = input NewAccountInstance.encrypted_key_ciphertext2x;
        sym_key_encryption_2_y = input NewAccountInstance.encrypted_key_ciphertext2y;
        mac_salt = input NewAccountInstance.mac_salt;
        mac_commitment = input NewAccountInstance.mac_commitment;
      }

  -- The knowledge that `prove` and `pub_inputs` make of their input.
  unfoldable pub read_new_account_knowledge :
      NewAccountProveInputsBytes → Option (NewAccountProverKnowledge f.Fr)
  read_new_account_knowledge bytes = do
    id ← vec_to_f f from_repr bytes.id
    nullifier ← vec_to_f f from_repr bytes.nullifier
    initial_deposit ← vec_to_f f from_repr bytes.initial_deposit
    commitment ← vec_to_f f from_repr bytes.commitment
    token_address ← vec_to_f f from_repr bytes.token_address
    encryption_salt ← vec_to_f f from_repr bytes.encryption_salt
    mac_salt ← vec_to_f f from_repr bytes.mac_salt
    x ← vec_to_f f from_repr bytes.anonymity_revoker_public_key_x
    y ← vec_to_f f from_repr bytes.anonymity_revoker_public_key_y
    some (record {
      id = id;
      nullifier = nullifier;
      initial_deposit = initial_deposit;
      commitment = commitment;
      token_address = token_address;
      encryption_salt = circuits.field_element_to_le_bits encryption_salt;
      anonymity_revoker_public_key_x = x;
      anonymity_revoker_public_key_y = y;
      mac_salt = mac_salt;
    })

  unfoldable pub new_account_prove :
      (ℕ → NewAccountProverKnowledge f.Fr → List ℕ)
      → ℕ
      → NewAccountProveInputsBytes
      → Option (List ℕ)
  unfolding read_new_account_knowledge
  new_account_prove generate_proof draw bytes =
      read_new_account_knowledge bytes >>= λ knowledge. some (generate_proof draw knowledge)

  unfoldable pub new_account_pub_inputs :
      NewAccountProveInputsBytes → Option NewAccountPubInputsBytes
  unfolding read_new_account_knowledge new_account_pub_inputs_bytes
  new_account_pub_inputs bytes = read_new_account_knowledge bytes >>= λ knowledge.
      some (new_account_pub_inputs_bytes knowledge)

  unfoldable pub new_account_circuit :
      (ℕ → NewAccountProverKnowledge f.Fr → List ℕ)
      → (List ℕ → Option NewAccountProveInputsBytes)
      → (NewAccountPubInputsBytes → Option (List ℕ))
      → SerializableCircuit
  unfolding new_account_prove new_account_pub_inputs
  new_account_circuit generate_proof deserialize to_vec = record {
    Input = NewAccountProveInputsBytes;
    Output = NewAccountPubInputsBytes;
    deserialize = deserialize;
    pub_inputs = new_account_pub_inputs;
    prove = new_account_prove generate_proof;
    to_vec = to_vec;
  }
