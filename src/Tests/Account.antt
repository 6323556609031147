-- ===== src/Tests/Account.antt =====
-- An account at concrete actions.
use zk_os_monorepo.Base.{◌+◌, ◌≤◌, ◌<◌, ◌≡◌, ◌≢◌, ◌↔◌, ◌⊎◌, refl, none, some, [], ◌∷◌, arith}
use zk_os_monorepo.Base.Word.{u256_mod, sub256, checked_add256, checked_sub256}
use zk_os_monorepo.Token.{erc20, token_eq}
use zk_os_monorepo.Account.Action.{ShielderAction, new_account, withdraw, action_token}
use zk_os_monorepo.Account.State.{
  ShielderAccount, register_action, next_nullifier, previous_nullifier, prenullifier,
}
use zk_os_monorepo.Account.Balance.{
  credit, debit, IsConsistent, register_action-IsConsistent, register_action-panics,
}
use zk_os_monorepo.Account.History.{register_all}
use zk_os_monorepo.Account.Nullifiers.{previous_nullifier-register_action}
use zk_os_monorepo.Tests.Fixtures.{fr, hashes, keccak}

abbrev opening : ShielderAction
opening =
    new_account
      (record { amount = 100; note_index = 3; tx_hash = 9; token = erc20 5; protocol_fee = 1 })

abbrev spending : ShielderAction
spending =
    withdraw 11
      (record { amount = 40; note_index = 4; tx_hash = 10; token = erc20 5; protocol_fee = 2 })

abbrev fresh : ShielderAccount
fresh = record { id = 7; token = erc20 5; nonce = 0; shielded_amount = 0; history = [] }

abbrev opened : ShielderAccount
opened = record { id = 7; token = erc20 5; nonce = 1; shielded_amount = 99; history = opening ∷ [] }

abbrev spent : ShielderAccount
spent = record {
  id = 7;
  token = erc20 5;
  nonce = 2;
  shielded_amount = 59;
  history = opening ∷ spending ∷ [];
}

fresh-IsConsistent : IsConsistent fresh
fresh-IsConsistent = record { balanced = omega arith; bounded = omega arith; counted = omega arith }

open_passes : register_action fresh opening ≡ some opened
unfolding register_action checked_add256 sub256 token_eq action_token
open_passes = refl

opened-IsConsistent : IsConsistent opened
opened-IsConsistent =
    register_action-IsConsistent fresh opened opening fresh-IsConsistent open_passes

spend_passes : register_action opened spending ≡ some spent
unfolding register_action checked_sub256 token_eq action_token
spend_passes = refl

run_passes : register_all fresh (opening ∷ spending ∷ []) ≡ some spent
unfolding register_all register_action checked_add256 checked_sub256 sub256 token_eq action_token
run_passes = refl

register_action-IsConsistent_example : IsConsistent spent
register_action-IsConsistent_example =
    register_action-IsConsistent opened spent spending opened-IsConsistent spend_passes

register_action-panics_example : (register_action opened spending ≡ none) ↔ (
    (erc20 5 ≢ action_token spending) ⊎ ((u256_mod ≤ 99 + credit spending) ⊎ (99 < debit spending)))
register_action-panics_example = register_action-panics opened spending (omega arith)

previous_nullifier-register_action_example :
    (previous_nullifier fr hashes keccak spent ≡ next_nullifier fr hashes keccak opened)
    × (prenullifier fr hashes keccak spent ≡ prenullifier fr hashes keccak opened)
previous_nullifier-register_action_example =
    previous_nullifier-register_action fr hashes keccak opened spent spending (omega arith)
      spend_passes
