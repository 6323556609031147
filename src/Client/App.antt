-- ===== src/Client/App.antt =====
-- What the commands of crates/shielder-cli do to the state: src/app_state.rs, the commands of
-- src/config.rs and the `perform_` functions of src/main.rs. A text is a list of code points. Poseidon,
-- the reading of a number from a text, and what the operations ask of the world are parameters.
use zk_os_monorepo.Base.{ℕ, Bool, Option, none, some, List, []}
use zk_os_monorepo.Outcome.{Outcome, ok, err, panic, or_panic, guard, ◌>>=◌, ◌>>◌}
use zk_os_monorepo.Conversions.{Field, u256_to_field, address_to_field, field_to_u256}
use zk_os_monorepo.Token.{Token, native, erc20, address}
use zk_os_monorepo.Account.State.{Hashes}
use zk_os_monorepo.Calls.Knowledge.{Circuits}
use zk_os_monorepo.Recovery.{Node, RecoveryError}
use zk_os_monorepo.Client.{ClientError, ClientState, ensure_account_exist}
use zk_os_monorepo.Client.Deposit
use zk_os_monorepo.Client.Deposit.{DepositWorld}
use zk_os_monorepo.Client.Withdraw
use zk_os_monorepo.Client.Withdraw.{WithdrawWorld}
use zk_os_monorepo.Client.Recover

abbrev pub Text : Type 0
Text = List ℕ

-- `client` is what the operations read and write.
pub record AppState : Type 0 where
  pub client : ClientState
  pub node_rpc_url : Text
  pub contract_address : ℕ
  pub relayer_rpc_url : Text
  pub signing_key : Text

unfoldable pub new : Text → AppState
new signing_key = record {
  client = record {
    accounts = [];
    protocol_fees = record { deposit_fee = none; withdraw_fee = none };
  };
  node_rpc_url = [];
  contract_address = 0;
  relayer_rpc_url = [];
  signing_key = signing_key;
}

pub data StateWriteCommand : Type 0 where
  initialize node_url relayer_url : Text → StateWriteCommand
  contract_address : ℕ → StateWriteCommand
  recover_state : Token → Option ℕ → StateWriteCommand

pub data StateReadCommand : Type 0 where
  display_account history app_config : StateReadCommand

-- Amounts, addresses, memos and seeds in the order of the source.
pub data ContractInteractionCommand : Type 0 where
  new_account : ℕ → Option (List ℕ) → Option ℕ → ContractInteractionCommand
  new_account_erc20 : ℕ → ℕ → Option (List ℕ) → Option ℕ → ContractInteractionCommand
  deposit : ℕ → Option (List ℕ) → ContractInteractionCommand
  deposit_erc20 : ℕ → ℕ → Option (List ℕ) → ContractInteractionCommand
  withdraw : ℕ → ℕ → Option (List ℕ) → ContractInteractionCommand
  withdraw_erc20 : ℕ → ℕ → ℕ → ℕ → Option (List ℕ) → ContractInteractionCommand

pub data Command : Type 0 where
  state_write : StateWriteCommand → Command
  state_read : StateReadCommand → Command
  contract_interaction : ContractInteractionCommand → Command

unfoldable pub interaction_token : ContractInteractionCommand → Token
interaction_token (new_account amount memo zkid_seed) = native
interaction_token (new_account_erc20 amount token_address memo zkid_seed) = erc20 token_address
interaction_token (deposit amount memo) = native
interaction_token (deposit_erc20 amount token_address memo) = erc20 token_address
interaction_token (withdraw amount to memo) = native
interaction_token (withdraw_erc20 amount to token_address pocket_money memo) = erc20 token_address

unfoldable pub command_token : Command → Option Token
unfolding interaction_token
command_token (contract_interaction cmd) = some (interaction_token cmd)
command_token (state_write cmd) = none
command_token (state_read cmd) = none

unfoldable pub command_zkid_seed : Command → Option ℕ
command_zkid_seed (contract_interaction (new_account amount memo zkid_seed)) = zkid_seed
command_zkid_seed (contract_interaction (new_account_erc20 amount token_address memo zkid_seed)) =
    zkid_seed
command_zkid_seed (state_write (recover_state token zkid_seed)) = zkid_seed
command_zkid_seed _ = none

abbrev pub memo_or_empty : Option (List ℕ) → List ℕ
memo_or_empty none = []
memo_or_empty (some memo) = memo

pub data AppError : Type 0 where
  client_error : ClientError → AppError
  recovery_error : RecoveryError → AppError
  relayer_unhealthy state_file_missing cannot_decrypt cannot_encrypt cannot_parse no_password :
      AppError

-- The new state, if the operation on its client part succeeds.
unfoldable pub with_client :
    {E : Type 0} → (E → AppError) → AppState → Outcome E ClientState → Outcome AppError AppState
with_client error app (ok client) = ok (record app { client = client })
with_client error app (err e) = err (error e)
with_client error app panic = panic

module _ (f : Field) (h : Hashes f) (keccak : List ℕ → List ℕ) (circuits : Circuits f)
    (Decimal : Type 0) (hash : f.Fr → f.Fr → f.Fr) (poseidon : f.Fr → f.Fr)
    (u256_from_str : Text → Option ℕ) where
  unfoldable pub default_zkid_seed : AppState → Token → Option ℕ
  default_zkid_seed app token = elim (u256_from_str app.signing_key) [
    | none ↦ none
    | some seed ↦
        some (field_to_u256 f (hash (u256_to_field f seed) (address_to_field f (address token))))
  ]

  unfoldable pub seed_or_default : AppState → Token → Option ℕ → Outcome AppError ℕ
  unfolding default_zkid_seed
  seed_or_default app token (some zkid_seed) = ok zkid_seed
  seed_or_default app token none = or_panic (default_zkid_seed app token)

  unfoldable pub ensure_account : AppState → Token → Option ℕ → Outcome AppError AppState
  unfolding seed_or_default
  ensure_account app token zkid_seed = do
    seed ← seed_or_default app token zkid_seed
    ok (record app { client = ensure_account_exist f h keccak (λ _. seed) app.client token none })

  -- The command's token, if it has one, gets an account.
  unfoldable pub ensure_for : AppState → Command → Outcome AppError AppState
  unfolding ensure_account
  ensure_for app command = elim (command_token command) [
    | none ↦ ok app
    | some token ↦ ensure_account app token (command_zkid_seed command)
  ]

  -- What the commands ask of the world, which depends on the state's addresses and key. `fuel` bounds
  -- the requests of a recovery.
  pub record World : Type 0 where
    pub relayer_is_healthy : Text → Bool
    pub deposit_world : AppState → DepositWorld f.Fr
    pub withdraw_world : AppState → WithdrawWorld f.Fr Decimal
    pub node : AppState → Node
    pub fuel : ℕ

  module _ (world : World) where
    -- `Initialize` is unreachable here.
    unfoldable pub perform_state_write_action :
        AppState → StateWriteCommand → Outcome AppError AppState
    unfolding seed_or_default with_client
    perform_state_write_action app (initialize private_key) = panic
    perform_state_write_action app (node_url node) = ok (record app { node_rpc_url = node })
    perform_state_write_action app (contract_address a) = ok (record app { contract_address = a })
    perform_state_write_action app (relayer_url url) = do
      guard (world.relayer_is_healthy url) relayer_unhealthy
      ok (record app { relayer_rpc_url = url })
    perform_state_write_action app (recover_state token zkid_seed) = do
      seed ← seed_or_default app token zkid_seed
      with_client recovery_error app (
          Recover.recover_state f h keccak poseidon (world.node app) (λ _. seed) world.fuel
            app.client token none)

    unfoldable pub perform_contract_action :
        AppState → ContractInteractionCommand → Outcome AppError AppState
    unfolding with_client
    perform_contract_action app (new_account amount memo zkid_seed) = with_client client_error app (
        Deposit.new_account f h keccak circuits (world.deposit_world app) app.client amount native
          (memo_or_empty memo))
    perform_contract_action app (new_account_erc20 amount token_address memo zkid_seed) =
        with_client client_error app (
          Deposit.new_account f h keccak circuits (world.deposit_world app) app.client amount
            (erc20 token_address) (memo_or_empty memo))
    perform_contract_action app (deposit amount memo) = with_client client_error app (
        Deposit.deposit f h keccak circuits (world.deposit_world app) app.client amount native
          (memo_or_empty memo))
    perform_contract_action app (deposit_erc20 amount token_address memo) =
        with_client client_error app (
          Deposit.deposit f h keccak circuits (world.deposit_world app) app.client amount
            (erc20 token_address) (memo_or_empty memo))
    perform_contract_action app (withdraw amount to memo) = with_client client_error app (
        Withdraw.withdraw f h keccak circuits (world.withdraw_world app) app.client amount to native
          0 (memo_or_empty memo))
    perform_contract_action app (withdraw_erc20 amount to token_address pocket_money memo) =
        with_client client_error app (
          Withdraw.withdraw f h keccak circuits (world.withdraw_world app) app.client amount to
            (erc20 token_address) pocket_money (memo_or_empty memo))
