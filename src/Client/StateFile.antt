-- ===== src/Client/StateFile.antt =====
-- crates/shielder-cli/src/state_file.rs over crates/content-encryption/lib.rs, and `main` of
-- crates/shielder-cli/src/main.rs. The file is its bytes, if it exists; the disk does not fail. Argon2
-- and XChaCha20-Poly1305, serde_json and the check for UTF-8 are parameters.
use zk_os_monorepo.Base.{ℕ, Bool, true, false, Option, none, some, List, [], replicate}
use zk_os_monorepo.Outcome.{Outcome, ok, err, panic, ok_or, guard, ◌>>=◌, ◌>>◌}
use zk_os_monorepo.Conversions.{Field}
use zk_os_monorepo.Account.State.{Hashes}
use zk_os_monorepo.Calls.Knowledge.{Circuits}
use zk_os_monorepo.Client.App.{
  World, ensure_for, perform_state_write_action, perform_contract_action,
  ContractInteractionCommand, Text, AppState, AppError, state_file_missing, cannot_decrypt,
  cannot_encrypt, cannot_parse, no_password, Command, StateWriteCommand, state_write, state_read,
  contract_interaction, initialize, new,
}

abbrev pub salt : List ℕ
salt = replicate 32 41

abbrev pub nonce : List ℕ
nonce = replicate 24 41

pub record Cipher : Type 1 where
  pub Scheme : Type 0
  -- The scheme of the key that is derived from a password with a salt.
  pub hash_raw : List ℕ → List ℕ → Option Scheme
  pub seal : Scheme → List ℕ → List ℕ → Option (List ℕ)
  pub unseal : Scheme → List ℕ → List ℕ → Option (List ℕ)
  pub is_utf8 : List ℕ → Bool

-- What the commands do to the state in memory.
pub record Actions : Type 0 where
  pub ensure_account : AppState → Command → Outcome AppError AppState
  pub write : AppState → StateWriteCommand → Outcome AppError AppState
  pub interact : AppState → ContractInteractionCommand → Outcome AppError AppState

module _ (actions : Actions) where
  -- The state after a command, and whether it is saved.
  unfoldable pub perform : AppState → Command → Outcome AppError (AppState × Bool)
  perform app command = do
    ensured ← actions.ensure_account app command
    elim command [
      | state_write cmd ↦ actions.write ensured cmd >>= λ after. ok (after, true)
      | state_read cmd ↦ ok (ensured, false)
      | contract_interaction cmd ↦ actions.interact ensured cmd >>= λ after. ok (after, true)
    ]

module _ (cipher : Cipher) where
  unfoldable pub encrypt : List ℕ → List ℕ → Outcome AppError (List ℕ)
  encrypt content password = do
    scheme ← ok_or (cipher.hash_raw password salt) cannot_encrypt
    ok_or (cipher.seal scheme nonce content) cannot_encrypt

  unfoldable pub decrypt : List ℕ → List ℕ → Outcome AppError (List ℕ)
  decrypt content password = do
    scheme ← ok_or (cipher.hash_raw password salt) cannot_decrypt
    ok_or (cipher.unseal scheme nonce content) cannot_decrypt

  unfoldable pub decrypt_to_string : List ℕ → List ℕ → Outcome AppError (List ℕ)
  unfolding decrypt
  decrypt_to_string content password = do
    decrypted ← decrypt content password
    guard (cipher.is_utf8 decrypted) cannot_decrypt
    ok decrypted

  module _ (to_string : AppState → Option (List ℕ)) (from_str : List ℕ → Option AppState) where
    -- `get_app_state`
    unfoldable pub get_app_state : Option (List ℕ) → List ℕ → Outcome AppError AppState
    unfolding decrypt_to_string
    get_app_state none password = err state_file_missing
    get_app_state (some content) password = do
      decrypted ← decrypt_to_string content password
      ok_or (from_str decrypted) cannot_parse

    -- What `save_app_state` writes.
    unfoldable pub save_app_state : AppState → List ℕ → Outcome AppError (List ℕ)
    unfolding encrypt
    save_app_state app password = do
      serialized ← ok_or (to_string app) cannot_parse
      encrypt serialized password

    -- The file afterwards; it is truncated before the state is encrypted.
    unfoldable pub create_and_save_new_state :
        List ℕ → Text → Option (List ℕ) × Outcome AppError (Unit {0})
    unfolding save_app_state
    create_and_save_new_state password private_key =
        elim (save_app_state (new private_key) password) [
          | ok content ↦ (some content, ok tt)
          | err e ↦ (some [], err e)
          | panic ↦ (some [], panic)
        ]

    -- The password of the command line, an empty one, or what the user types.
    unfoldable pub password_of :
        Bool → Option (List ℕ) → Option (List ℕ) → Outcome AppError (List ℕ)
    password_of true given prompted = ok []
    password_of false (some password) prompted = ok password
    password_of false none prompted = ok_or prompted no_password

    module _ (actions : Actions) where
      -- The branch of `main` for a command other than `Initialize`.
      unfoldable pub run_on_state :
          Command → List ℕ → Option (List ℕ) → Option (List ℕ) × Outcome AppError (Unit {0})
      run_on_state command password file =
          elim (get_app_state file password >>= λ app. perform actions app command) [
            | err e ↦ (file, err e)
            | panic ↦ (file, panic)
            | ok (after, false) ↦ (file, ok tt)
            | ok (after, true) ↦ elim (save_app_state after password) [
              | err e ↦ (file, err e)
              | panic ↦ (file, panic)
              | ok content ↦ (some content, ok tt)
            ]
          ]

      unfoldable pub run_command :
          Command → List ℕ → Option (List ℕ) → Option (List ℕ) × Outcome AppError (Unit {0})
      unfolding create_and_save_new_state
      run_command (state_write (initialize private_key)) password file =
          create_and_save_new_state password private_key
      run_command command password file = run_on_state command password file

-- The commands of the program.
unfoldable pub client_actions :
    (f : Field) (h : Hashes f) (keccak : List ℕ → List ℕ) (circuits : Circuits f) (Decimal : Type 0)
    (hash : f.Fr → f.Fr → f.Fr) (poseidon : f.Fr → f.Fr) (u256_from_str : Text → Option ℕ)
    → World f h keccak circuits Decimal hash poseidon u256_from_str
    → Actions
client_actions f h keccak circuits Decimal hash poseidon u256_from_str world = record {
  ensure_account = ensure_for f h keccak circuits Decimal hash poseidon u256_from_str;
  write = perform_state_write_action f h keccak circuits Decimal hash poseidon u256_from_str world;
  interact = perform_contract_action f h keccak circuits Decimal hash poseidon u256_from_str world;
}
