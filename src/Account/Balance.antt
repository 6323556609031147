-- ===== src/Account/Balance.antt =====
-- The books of an account of crates/shielder-account/src/lib.rs.
use zk_os_monorepo.Base.{
  ℕ, ◌+◌, ◌%◌, ◌≤◌, ◌<◌, ◌≡◌, ◌≢◌, ◌↔◌, ◌⊎◌, none, some, List, [], ◌∷◌, ◌++◌, length, length-append,
  arith,
}
use zk_os_monorepo.Base.Word.{u256_mod, u32_mod, sub256, checked_add256, checked_sub256}
use zk_os_monorepo.Token.{token_eq_iff}
use zk_os_monorepo.Account.Action.{ShielderAction, new_account, deposit, withdraw, action_token}
use zk_os_monorepo.Account.State.{ShielderAccount, register_action, apply_amount}

-- What an action adds to and takes from the shielded amount.
abbrev pub credit : ShielderAction → ℕ
credit (new_account d) = sub256 d.amount d.protocol_fee
credit (deposit d) = sub256 d.amount d.protocol_fee
credit (withdraw to d) = 0

abbrev pub debit : ShielderAction → ℕ
debit (new_account d) = 0
debit (deposit d) = 0
debit (withdraw to d) = d.amount

abbrev pub total : (ShielderAction → ℕ) → List ShielderAction → ℕ
total f [] = 0
total f (x ∷ xs) = f x + total f xs

total-append :
    (f : ShielderAction → ℕ) (xs : List ShielderAction) (x : ShielderAction)
    → total f (xs ++ x ∷ []) ≡ total f xs + f x
total-append f [] x = omega arith
total-append f (y ∷ xs) x = omega (arith, total-append f xs x)

-- The shielded amount is what the history brought in less what it took out, it fits in 256 bits,
-- and the nonce counts the history.
pub record IsConsistent (account : ShielderAccount) : Type 0 where
  pub balanced :
      account.shielded_amount + total debit account.history ≡ total credit account.history
  pub bounded : account.shielded_amount < u256_mod
  pub counted : account.nonce ≡ length account.history % u32_mod

apply_amount_lem :
    (balance next : ℕ) (action : ShielderAction)
    → balance < u256_mod
    → apply_amount balance action ≡ some next
    → (next + debit action ≡ balance + credit action) × (next < u256_mod)
unfolding apply_amount checked_add256 checked_sub256
apply_amount_lem balance next (new_account d) h e = ground arith
apply_amount_lem balance next (deposit d) h e = ground arith
apply_amount_lem balance next (withdraw to d) h e = ground arith

-- Every action that is registered without a panic keeps the account consistent.
pub register_action-IsConsistent :
    (account after : ShielderAccount) (action : ShielderAction)
    → IsConsistent account
    → register_action account action ≡ some after
    → IsConsistent after
unfolding register_action
register_action-IsConsistent account after action c e = ground (
  arith,
  apply_amount_lem account.shielded_amount after.shielded_amount action c.bounded,
  total-append debit account.history action,
  total-append credit account.history action,
  length-append account.history (action ∷ []),
)

apply_amount-none :
    (balance : ℕ) (action : ShielderAction)
    → balance < u256_mod
    → (apply_amount balance action ≡ none)
      ↔ ((u256_mod ≤ balance + credit action) ⊎ (balance < debit action))
unfolding apply_amount checked_add256 checked_sub256
apply_amount-none balance (new_account d) h = ground arith
apply_amount-none balance (deposit d) h = ground arith
apply_amount-none balance (withdraw to d) h = ground arith

-- On an account whose amount fits in 256 bits, registering panics exactly if the action is of
-- another token, the amount would pass 2 ^ 256, or a withdrawal takes more than there is.
pub register_action-panics :
    (account : ShielderAccount) (action : ShielderAction)
    → account.shielded_amount < u256_mod
    → (register_action account action ≡ none) ↔ (
        (account.token ≢ action_token action)
        ⊎ ((u256_mod ≤ account.shielded_amount + credit action)
            ⊎ (account.shielded_amount < debit action)))
unfolding register_action
register_action-panics account action h = ground (
  arith,
  apply_amount-none account.shielded_amount action h,
  token_eq_iff account.token (action_token action),
)
