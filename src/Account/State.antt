-- ===== src/Account/State.antt =====
-- `ShielderAccount` of crates/shielder-account/src/lib.rs. `none` stands for a panic of
-- `register_action`; `nonce += 1` wraps at 32 bits, as in a release build.
use mathlib.Core.Option
use zk_os_monorepo.Base.{
  get_last?, ℕ, ◌+◌, ◌-◌, ◌%◌, Option, none, some, List, [], ◌∷◌, ◌++◌, ◌==◌, if◌then◌else◌, ltb,
}
use zk_os_monorepo.Base.Word.{u32_mod, sub256, checked_add256, checked_sub256}
use zk_os_monorepo.Conversions.{Field, u256_to_field, field_to_u256, address_to_field}
use zk_os_monorepo.Setup.Version.{contract_version}
use zk_os_monorepo.Token.{Token, address, token_eq}
use zk_os_monorepo.Account.Action.{
  ShielderAction, new_account, deposit, withdraw, action_data, action_token,
}
use zk_os_monorepo.Account.Secrets.{derive_nullifier}

pub record ShielderAccount : Type 0 where
  pub id : ℕ
  pub token : Token
  pub nonce : ℕ
  pub shielded_amount : ℕ
  pub history : List ShielderAction

-- The new balance, by the kind of the action.
unfoldable pub apply_amount : ℕ → ShielderAction → Option ℕ
apply_amount balance (new_account d) = checked_add256 balance (sub256 d.amount d.protocol_fee)
apply_amount balance (deposit d) = checked_add256 balance (sub256 d.amount d.protocol_fee)
apply_amount balance (withdraw to d) = checked_sub256 balance d.amount

unfoldable pub register_action : ShielderAccount → ShielderAction → Option ShielderAccount
unfolding apply_amount
register_action account action =
    if token_eq account.token (action_token action)
    then (elim (apply_amount account.shielded_amount action) [
      | none ↦ none
      | some balance ↦ some (record account {
        nonce = (account.nonce + 1) % u32_mod;
        shielded_amount = balance;
        history = account.history ++ action ∷ [];
      })
    ])
    else none

unfoldable pub current_leaf_index : ShielderAccount → Option ℕ
current_leaf_index account =
    Option.map (λ action. (action_data action).note_index) (get_last? account.history)

-- `Note` of shielder_circuits, over the field's elements.
pub record Note (Fr : Type 0) : Type 0 where
  pub version : ℕ
  pub id : Fr
  pub nullifier : Fr
  pub account_balance : Fr
  pub token_address : Fr

-- The hashes of the crate shielder_circuits.
pub record Hashes (f : Field) : Type 0 where
  pub generate_user_id : List ℕ → f.Fr
  pub note_hash : Note f.Fr → f.Fr

module _ (f : Field) (h : Hashes f) (keccak : List ℕ → List ℕ) where
  unfoldable pub new : ℕ → Token → ShielderAccount
  new id_seed token = record {
    id = field_to_u256 f (h.generate_user_id (f.to_repr (u256_to_field f id_seed)));
    token = token;
    nonce = 0;
    shielded_amount = 0;
    history = [];
  }

  unfoldable pub prenullifier : ShielderAccount → ℕ
  prenullifier account = account.id

  unfoldable pub next_nullifier : ShielderAccount → ℕ
  next_nullifier account = derive_nullifier keccak account.id account.nonce

  unfoldable pub previous_nullifier : ShielderAccount → ℕ
  unfolding prenullifier
  previous_nullifier account =
      if ltb account.nonce 1
      then prenullifier account
      else derive_nullifier keccak account.id (account.nonce - 1)

  unfoldable pub note : ShielderAccount → Token → Option ℕ
  unfolding previous_nullifier
  note account token =
      if account.nonce == 0
      then none
      else some (
          field_to_u256 f (
            h.note_hash (record {
              version = contract_version.note_version;
              id = u256_to_field f account.id;
              nullifier = u256_to_field f (previous_nullifier account);
              account_balance = u256_to_field f account.shielded_amount;
              token_address = address_to_field f (address token);
            })))
