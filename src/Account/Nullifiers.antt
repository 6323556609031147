-- ===== src/Account/Nullifiers.antt =====
-- The chain of nullifiers and notes of an account of crates/shielder-account/src/lib.rs.
use zk_os_monorepo.Base.{get_last?-append, ℕ, ◌+◌, ◌%◌, ◌<◌, ◌≡◌, some, List, arith}
use zk_os_monorepo.Base.Word.{u32_mod}
use zk_os_monorepo.Conversions.{Field, u256_to_field, field_to_u256, address_to_field}
use zk_os_monorepo.Setup.Version.{contract_version}
use zk_os_monorepo.Token.{Token, address}
use zk_os_monorepo.Account.Action.{ShielderAction, action_data}
use zk_os_monorepo.Account.State.{
  ShielderAccount, Hashes, register_action, next_nullifier, previous_nullifier, prenullifier, note,
  current_leaf_index,
}

register_action_fields :
    (account after : ShielderAccount) (action : ShielderAction)
    → register_action account action ≡ some after
    → (after.id ≡ account.id) × (after.nonce ≡ (account.nonce + 1) % u32_mod)
unfolding register_action
register_action_fields account after action e = ground arith

-- After an action that does not panic the current leaf is the note index of that action.
pub current_leaf_index-register_action :
    (account after : ShielderAccount) (action : ShielderAction)
    → register_action account action ≡ some after
    → current_leaf_index after ≡ some (action_data action).note_index
unfolding register_action current_leaf_index
current_leaf_index-register_action account after action e =
    ground (arith, get_last?-append account.history action)

module _ (f : Field) (h : Hashes f) (keccak : List ℕ → List ℕ) where
  -- While the nonce stays below 2 ^ 32, an action that does not panic makes the account's next
  -- nullifier its previous one, so that the next action spends what this one created, and keeps the
  -- pre-nullifier.
  pub previous_nullifier-register_action :
      (account after : ShielderAccount) (action : ShielderAction)
      → account.nonce + 1 < u32_mod
      → register_action account action ≡ some after
      → (previous_nullifier f h keccak after ≡ next_nullifier f h keccak account)
        × (prenullifier f h keccak after ≡ prenullifier f h keccak account)
  unfolding previous_nullifier next_nullifier
  previous_nullifier-register_action account after action room e =
      ground (arith, register_action_fields account after action e)

  -- While the nonce stays below 2 ^ 32, the note after an action that does not panic is the hash of
  -- the note version, the account's id, the nullifier that was next before the action, the new
  -- shielded amount, and the address of the given token.
  pub note-register_action :
      (account after : ShielderAccount) (action : ShielderAction) (token : Token)
      → account.nonce + 1 < u32_mod
      → register_action account action ≡ some after
      → note f h keccak after token
        ≡ some (
            field_to_u256 f (
              h.note_hash (record {
                version = contract_version.note_version;
                id = u256_to_field f account.id;
                nullifier = u256_to_field f (next_nullifier f h keccak account);
                account_balance = u256_to_field f after.shielded_amount;
                token_address = address_to_field f (address token);
              })))
  unfolding note
  note-register_action account after action token room e = ground (
    arith,
    register_action_fields account after action e,
    previous_nullifier-register_action account after action room e,
  )
