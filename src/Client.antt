-- ===== src/Client.antt =====
-- The command-line client, crates/shielder-cli: the local state of src/app_state.rs, and the
-- operations of src/shielder_ops. A command that fails ends the program before the state is saved, so
-- an operation returns the new state or an error; a panic is an outcome of its own. The node, the
-- relayer and the prover are parameters that answer each request, `none` for a failure.
pub mod Deposit
pub mod Withdraw
pub mod Paid
pub mod Credited
pub mod Withdrawn
pub mod Recover
pub mod App
pub mod StateFile
pub mod Session
pub mod Equipment
pub mod Cached
use zk_os_monorepo.Base.{ℕ, Bool, Option, none, some, List}
use zk_os_monorepo.Base.Assoc.{number_key, lookup, upsert}
use zk_os_monorepo.Outcome.{Outcome, ok, err, panic, ok_or, or_panic, ◌>>=◌, ◌>>◌}
use zk_os_monorepo.Conversions.{Field}
use zk_os_monorepo.Token.{Token, address}
use zk_os_monorepo.Account.Action.{ShielderAction}
use zk_os_monorepo.Account.State.{ShielderAccount, Hashes, new, register_action, current_leaf_index}
use zk_os_monorepo.MerklePath.{reorganize_merkle_path}

pub data ClientError : Type 0 where
  relayer_unhealthy quote_refused provider_error not_enough_funds : ClientError
  no_equipment relay_refused not_included no_receipt : ClientError

pub record ProtocolFees : Type 0 where
  pub deposit_fee : Option ℕ
  pub withdraw_fee : Option ℕ

pub record ClientState : Type 0 where
  pub accounts : List (ℕ × ShielderAccount)
  pub protocol_fees : ProtocolFees

-- `accounts.get(&token.address())`
unfoldable pub account_of : ClientState → Token → Option ShielderAccount
account_of state token = lookup number_key (address token) state.accounts

unfoldable pub ensure_account_exist :
    (f : Field)
    → Hashes f
    → (List ℕ → List ℕ)
    → (Token → ℕ)
    → ClientState
    → Token
    → Option ℕ
    → ClientState
ensure_account_exist f h keccak default_zkid_seed state token zkid_seed =
    let seed : ℕ = elim zkid_seed [ none ↦ default_zkid_seed token | some seed ↦ seed ] in
    record state {
      accounts =
          upsert number_key (address token) (λ account. account) (new f h keccak seed token)
            state.accounts;
    }

-- `accounts.get_mut(&token.address()).unwrap().register_action(action)`
unfoldable pub register : ClientState → Token → ShielderAction → Outcome ClientError ClientState
register state token action = do
  account ← or_panic (account_of state token)
  after ← or_panic (register_action account action)
  ok (record state {
    accounts = upsert number_key (address token) (λ _. after) after state.accounts;
  })

-- `get_current_merkle_path`
unfoldable pub get_current_merkle_path :
    (ℕ → Option (List ℕ)) → ℕ → Outcome ClientError (ℕ × List (List ℕ))
get_current_merkle_path get_merkle_path leaf_index = do
  flat ← ok_or (get_merkle_path leaf_index) provider_error
  ok_or (reorganize_merkle_path flat) provider_error

-- The fee rate that the state remembers, or else the node's.
unfoldable pub remembered : Option ℕ → Option ℕ → Outcome ClientError ℕ
remembered (some bps) answer = ok bps
remembered none answer = ok_or answer provider_error
