-- ===== src/Client/Session.antt =====
-- The state file of crates/shielder-cli over many commands.
use mathlib.Core.Path.{subst}
use zk_os_monorepo.Base.{
  refl, none, ℕ, ◌≡◌, Bool, true, false, Option, some, List, [], ◌∷◌, arith, inl, inr,
}
use zk_os_monorepo.Outcome.{Outcome, ok, err, panic, ◌>>=◌, Outcome-cases}
use zk_os_monorepo.Client.App.{
  AppState, AppError, Text, StateWriteCommand, StateReadCommand, ContractInteractionCommand,
  Command, state_write, state_read, contract_interaction, initialize, node_url, relayer_url,
  contract_address, recover_state, new,
}
use zk_os_monorepo.Client.StateFile.{
  Cipher, salt, nonce, Actions, get_app_state, save_app_state, create_and_save_new_state, perform,
  run_on_state, run_command,
}

-- The scheme of the password seals each text and unseals it as it was, and states are written as text
-- and read back.
pub record IsKept (cipher : Cipher) (to_string : AppState → Option (List ℕ))
    (from_str : List ℕ → Option AppState) (password : List ℕ) : Type 0 where
  pub scheme : cipher.Scheme
  pub derives : cipher.hash_raw password salt ≡ some scheme
  pub sealed : List ℕ → List ℕ
  pub seals : (text : List ℕ) → cipher.seal scheme nonce text ≡ some (sealed text)
  pub unseals : (text : List ℕ) → cipher.unseal scheme nonce (sealed text) ≡ some text
  pub text : AppState → List ℕ
  pub writes : (app : AppState) → to_string app ≡ some (text app)
  pub is_text : (app : AppState) → cipher.is_utf8 (text app) ≡ true
  pub reads : (app : AppState) → from_str (text app) ≡ some app

module _ (cipher : Cipher) (to_string : AppState → Option (List ℕ))
    (from_str : List ℕ → Option AppState) (actions : Actions) (password : List ℕ)
    (kept : IsKept cipher to_string from_str password) where
  -- The file after some commands, each of them a run of the program.
  abbrev pub run_commands : List Command → Option (List ℕ) → Option (List ℕ)
  run_commands [] file = file
  run_commands (command ∷ commands) file =
      run_commands commands (run_command cipher to_string from_str actions command password file).0

  -- The state in memory after a command that saves what it makes of it, unless it fails or panics.
  abbrev pub after_saving : AppState → Outcome AppError AppState → AppState
  after_saving app (ok after) = after
  after_saving app (err e) = app
  after_saving app panic = app

  -- The state that `Initialize` makes: no accounts, no remembered fees and no addresses.
  abbrev pub initial : Text → AppState
  initial private_key = record {
    client = record {
      accounts = [];
      protocol_fees = record { deposit_fee = none; withdraw_fee = none };
    };
    node_rpc_url = [];
    contract_address = 0;
    relayer_rpc_url = [];
    signing_key = private_key;
  }

  abbrev pub next : AppState → Command → AppState
  next app (state_write (initialize private_key)) = initial private_key
  next app (state_write cmd) =
      after_saving app
        (actions.ensure_account app (state_write cmd) >>= λ ensured. actions.write ensured cmd)
  next app (state_read cmd) = app
  next app (contract_interaction cmd) = after_saving app (
      actions.ensure_account app (contract_interaction cmd) >>= λ ensured.
      actions.interact ensured cmd)

  abbrev pub in_memory : AppState → List Command → AppState
  in_memory app [] = app
  in_memory app (command ∷ commands) = in_memory (next app command) commands

  save_lem :
      (app : AppState)
      → save_app_state cipher to_string from_str app password ≡ ok (kept.sealed (kept.text app))
  unfolding save_app_state
  save_lem app = ground (arith, kept.writes app, kept.derives, kept.seals (kept.text app))

  get_lem :
      (app : AppState)
      → get_app_state cipher to_string from_str (some (kept.sealed (kept.text app))) password
        ≡ ok app
  unfolding get_app_state
  get_lem app =
      ground (arith, kept.derives, kept.unseals (kept.text app), kept.is_text app, kept.reads app)

  -- The file holds a state.
  abbrev pub Holds : Option (List ℕ) → AppState → Type 0
  Holds file app = get_app_state cipher to_string from_str file password ≡ ok app

  -- What a run saves of a result that says whether it shall be saved.
  abbrev saved : AppState → Outcome AppError (AppState × Bool) → AppState
  saved app (ok (after, true)) = after
  saved app (ok (after, false)) = app
  saved app (err e) = app
  saved app panic = app

  on_state_lem :
      (command : Command) (file : Option (List ℕ)) (app : AppState)
      → Holds file app
      → Holds
          (run_on_state cipher to_string from_str actions command password file).0
          (saved app (perform actions app command))
  unfolding run_on_state
  on_state_lem command file app h = elim (Outcome-cases (perform actions app command)) [
    | inr (inl (e, q)) ↦ ground (arith, h, q)
    | inr (inr q) ↦ ground (arith, h, q)
    | inl ((after, false), q) ↦ ground (arith, h, q)
    | inl ((after, true), q) ↦ ground (arith, h, q, save_lem after, get_lem after)
  ]

  write_lem :
      (app : AppState) (cmd : StateWriteCommand)
      → saved app (perform actions app (state_write cmd))
        ≡ after_saving app
            (actions.ensure_account app (state_write cmd) >>= λ ensured. actions.write ensured cmd)
  unfolding perform
  write_lem app cmd = elim (Outcome-cases (actions.ensure_account app (state_write cmd))) [
    | inr (inl (e, q)) ↦ rw (perform, q) refl
    | inr (inr q) ↦ rw (perform, q) refl
    | inl (ensured, q) ↦ elim (Outcome-cases (actions.write ensured cmd)) [
      | inr (inl (e, r)) ↦ rw (perform, q, r) refl
      | inr (inr r) ↦ rw (perform, q, r) refl
      | inl (after, r) ↦ rw (perform, q, r) refl
    ]
  ]

  read_lem :
      (app : AppState) (cmd : StateReadCommand)
      → saved app (perform actions app (state_read cmd)) ≡ app
  unfolding perform
  read_lem app cmd = elim (Outcome-cases (actions.ensure_account app (state_read cmd))) [
    | inr (inl (e, q)) ↦ rw (perform, q) refl
    | inr (inr q) ↦ rw (perform, q) refl
    | inl (ensured, q) ↦ rw (perform, q) refl
  ]

  interact_lem :
      (app : AppState) (cmd : ContractInteractionCommand)
      → saved app (perform actions app (contract_interaction cmd))
        ≡ after_saving app (
            actions.ensure_account app (contract_interaction cmd) >>= λ ensured.
            actions.interact ensured cmd)
  unfolding perform
  interact_lem app cmd =
      elim (Outcome-cases (actions.ensure_account app (contract_interaction cmd))) [
        | inr (inl (e, q)) ↦ rw (perform, q) refl
        | inr (inr q) ↦ rw (perform, q) refl
        | inl (ensured, q) ↦ elim (Outcome-cases (actions.interact ensured cmd)) [
          | inr (inl (e, r)) ↦ rw (perform, q, r) refl
          | inr (inr r) ↦ rw (perform, q, r) refl
          | inl (after, r) ↦ rw (perform, q, r) refl
        ]
      ]

  writing_lem :
      (cmd : StateWriteCommand) (file : Option (List ℕ)) (app : AppState)
      → Holds file app
      → Holds (run_on_state cipher to_string from_str actions (state_write cmd) password file).0 (
          after_saving app
            (actions.ensure_account app (state_write cmd) >>= λ ensured. actions.write ensured cmd))
  writing_lem cmd file app h =
      subst (Holds _) (write_lem app cmd) (on_state_lem (state_write cmd) file app h)

  command_lem :
      (command : Command) (file : Option (List ℕ)) (app : AppState)
      → Holds file app
      → Holds
          (run_command cipher to_string from_str actions command password file).0
          (next app command)
  unfolding run_command create_and_save_new_state new
  command_lem (state_write (initialize key)) file app h =
      ground (arith, save_lem (initial key), get_lem (initial key))
  command_lem (state_write (node_url u)) file app h = writing_lem (node_url u) file app h
  command_lem (state_write (relayer_url u)) file app h = writing_lem (relayer_url u) file app h
  command_lem (state_write (contract_address a)) file app h =
      writing_lem (contract_address a) file app h
  command_lem (state_write (recover_state t s)) file app h =
      writing_lem (recover_state t s) file app h
  command_lem (state_read c) file app h =
      subst (Holds _) (read_lem app c) (on_state_lem (state_read c) file app h)
  command_lem (contract_interaction c) file app h =
      subst (Holds _) (interact_lem app c) (on_state_lem (contract_interaction c) file app h)

  -- Let the password's scheme unseal what it seals, and let states be read from their text as they
  -- were. From a file that holds a state, any runs of the program with this password leave a file that
  -- holds what the commands make of the state in memory: a command that writes the state or calls the
  -- contract makes of it what its actions do to it once the account is there, and nothing if they fail
  -- or panic, one that only reads makes nothing of it, and `Initialize` makes a state without accounts,
  -- fees and addresses.
  pub run_commands_lem :
      (commands : List Command) (file : Option (List ℕ)) (app : AppState)
      → Holds file app
      → Holds (run_commands commands file) (in_memory app commands)
  run_commands_lem [] file app h = h
  run_commands_lem (command ∷ commands) file app h =
      run_commands_lem commands
        (run_command cipher to_string from_str actions command password file).0 (next app command)
        (command_lem command file app h)
