-- ===== src/Tests/Program.antt =====
-- The command-line program: a cipher that marks its texts, a state file over some commands, and the
-- files of the proving equipment.
use zk_os_monorepo.Base.{
  ℕ, ◌+◌, ◌≡◌, refl, true, Option, none, some, List, [], ◌∷◌, ◌==◌, if◌then◌else◌, arith,
}
use zk_os_monorepo.Tests.Codec.{app_state}
use zk_os_monorepo.Outcome.{Outcome, ok, err}
use zk_os_monorepo.Client.App.{
  AppState, AppError, Command, StateWriteCommand, new, state_write, state_read,
  contract_interaction, relayer_unhealthy, new_account, node_url, contract_address, app_config,
}
use zk_os_monorepo.Client.StateFile.{
  Cipher, Actions, get_app_state, save_app_state, create_and_save_new_state, encrypt,
  decrypt_to_string, decrypt,
}
use zk_os_monorepo.Client.Session.{IsKept, run_commands, in_memory, run_commands_lem}
use zk_os_monorepo.Client.Equipment.{Files, KeyTools}

-- A password of one number is a scheme, which stands before each text.
abbrev cipher : Cipher
cipher = record {
  Scheme = ℕ;
  hash_raw = λ password salt. elim password [ [] ↦ none | x ∷ xs ↦ some x ];
  seal = λ scheme nonce text. some (scheme ∷ text);
  unseal =
      λ scheme nonce text. elim text [ [] ↦ none | x ∷ xs ↦ if x == scheme then some xs else none ];
  is_utf8 = λ text. true;
}

abbrev to_string : AppState → Option (List ℕ)
to_string app = some (app_state.put app [])

abbrev from_str : List ℕ → Option AppState
from_str text = elim (app_state.get text) [ none ↦ none | some (app, rest) ↦ some app ]

cipher-IsKept : IsKept cipher to_string from_str (6 ∷ [])
cipher-IsKept = record {
  scheme = 6;
  derives = refl;
  sealed = λ text. 6 ∷ text;
  seals = λ text. refl;
  unseals = λ text. refl;
  text = λ app. app_state.put app [];
  writes = λ app. refl;
  is_text = λ app. refl;
  reads = λ app. ground (arith, app_state.back app []);
}

-- Only the node's and the contract's addresses are set; whatever asks the world fails.
abbrev write : AppState → StateWriteCommand → Outcome AppError AppState
write app (node_url url) = ok (record app { node_rpc_url = url })
write app (contract_address a) = ok (record app { contract_address = a })
write app cmd = err relayer_unhealthy

abbrev actions : Actions
actions = record {
  ensure_account = λ app command. ok app;
  write = write;
  interact = λ app command. err relayer_unhealthy;
}

abbrev commands : List Command
commands =
    state_write (node_url (8 ∷ 9 ∷ []))
    ∷ state_read app_config
    ∷ contract_interaction (new_account 5 none none)
    ∷ state_write (contract_address 77)
    ∷ []

abbrev first_file : Option (List ℕ)
first_file = (create_and_save_new_state cipher to_string from_str (6 ∷ []) (3 ∷ [])).0

run_commands_lem_example :
    get_app_state cipher to_string from_str
      (run_commands cipher to_string from_str actions (6 ∷ []) cipher-IsKept commands first_file)
      (6 ∷ [])
    ≡ ok
        (in_memory cipher to_string from_str actions (6 ∷ []) cipher-IsKept (new (3 ∷ [])) commands)
unfolding get_app_state create_and_save_new_state decrypt_to_string decrypt save_app_state encrypt
    new
run_commands_lem_example =
    run_commands_lem cipher to_string from_str actions (6 ∷ []) cipher-IsKept commands first_file
      (new (3 ∷ [])) refl

-- Parameters are a number, and a key the circuit's number.
abbrev tools : KeyTools
tools = record {
  Params = ℕ;
  ProvingKey = ℕ;
  read_setup_parameters = some 20;
  marshall_params = λ p. some (p ∷ []);
  unmarshall_params = λ bytes. elim bytes [ [] ↦ none | x ∷ xs ↦ some x ];
  downsize = λ full k. k;
  generate_keys_with_min_k = λ c full. if full == 0 then none else some (11, 11, full + 3);
  marshall_pk = λ k pk. k ∷ pk ∷ [];
  unmarshall_pk = λ c bytes. elim bytes [
    | [] ↦ none
    | k ∷ more ↦ elim more [ [] ↦ none | pk ∷ rest ↦ some (k, pk) ]
  ];
}

abbrev no_files : Files
no_files = record {
  proving_params = none;
  new_account_pk = none;
  deposit_pk = none;
  withdraw_pk = none;
}

abbrev kept_files : Files
kept_files = record no_files { proving_params = some (20 ∷ []); deposit_pk = some (11 ∷ 23 ∷ []) }
