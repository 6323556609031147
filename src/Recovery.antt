-- ===== src/Recovery.antt =====
-- Finding an account's actions on the chain: crates/shielder-contract/src/recovery.rs, and the loop of
-- crates/shielder-cli/src/recovery.rs. The node is a parameter that answers each request, `none` for
-- a failure; a transaction carries what alloy decodes of its input.
pub mod Search
pub mod Loop
use zk_os_monorepo.Base.{
  ℕ, zero, suc, ◌-◌, Bool, Option, none, some, List, [], ◌∷◌, ◌==◌, leb, if◌then◌else◌,
}
use zk_os_monorepo.Base.Word.{u64_mod}
use zk_os_monorepo.Outcome.{Outcome, ok, err, panic, ok_or, or_panic, ◌>>=◌, ◌>>◌}
use zk_os_monorepo.Account.Action.{
  NewAccount, Deposit, Withdraw, ShielderContractEvents, new_account_event, deposit_event,
  withdraw_event, from_event,
}
use zk_os_monorepo.Account.State.{ShielderAccount, register_action}

pub data RecoveryError : Type 0 where
  provider_error block_not_found hash_not_found block_hash_not_found : RecoveryError
  event_not_found block_number_too_large : RecoveryError

-- The six calls, each with the nullifier that it spends, in the order in which they are tried.
pub data DecodedCall : Type 0 where
  new_account_native new_account_erc20 deposit_native deposit_erc20 : ℕ → DecodedCall
  withdraw_native withdraw_erc20 : ℕ → DecodedCall
  other_call : DecodedCall

pub record Transaction : Type 0 where
  pub info_hash : Option ℕ
  pub block_hash : Option ℕ
  pub input : DecodedCall
  pub tx_hash : ℕ

pub record Node : Type 0 where
  -- The contract's `nullifiers`.
  pub nullifiers : ℕ → Option ℕ
  pub get_block_by_number : ℕ → Option (Option (List Transaction))
  -- `get_event`, by a transaction's and a block's hash.
  pub get_new_account : ℕ → ℕ → Outcome RecoveryError NewAccount
  pub get_deposit : ℕ → ℕ → Outcome RecoveryError Deposit
  pub get_withdraw : ℕ → ℕ → Outcome RecoveryError Withdraw

abbrev pub Found : Type 0
Found = Option (ShielderContractEvents × ℕ)

module _ (node : Node) where
  unfoldable pub get_block_of_nullifier_spending : ℕ → Outcome RecoveryError (Option ℕ)
  get_block_of_nullifier_spending nullifier = do
    block_number ← ok_or (node.nullifiers nullifier) provider_error
    (if block_number == 0
        then ok none
        else if leb (u64_mod - 1) (block_number - 1)
        then err block_number_too_large
        else ok (some (block_number - 1)))

  unfoldable pub check_if_tx_is_shielder_action : ℕ → DecodedCall → ℕ → Outcome RecoveryError Found
  check_if_tx_is_shielder_action tx_hash (new_account_native prenullifier) block_hash = do
    event ← node.get_new_account tx_hash block_hash
    ok (some (new_account_event event, prenullifier))
  check_if_tx_is_shielder_action tx_hash (new_account_erc20 prenullifier) block_hash = do
    event ← node.get_new_account tx_hash block_hash
    ok (some (new_account_event event, prenullifier))
  check_if_tx_is_shielder_action tx_hash (deposit_native old_nullifier_hash) block_hash = do
    event ← node.get_deposit tx_hash block_hash
    ok (some (deposit_event event, old_nullifier_hash))
  check_if_tx_is_shielder_action tx_hash (deposit_erc20 old_nullifier_hash) block_hash = do
    event ← node.get_deposit tx_hash block_hash
    ok (some (deposit_event event, old_nullifier_hash))
  check_if_tx_is_shielder_action tx_hash (withdraw_native old_nullifier_hash) block_hash = do
    event ← node.get_withdraw tx_hash block_hash
    ok (some (withdraw_event event, old_nullifier_hash))
  check_if_tx_is_shielder_action tx_hash (withdraw_erc20 old_nullifier_hash) block_hash = do
    event ← node.get_withdraw tx_hash block_hash
    ok (some (withdraw_event event, old_nullifier_hash))
  check_if_tx_is_shielder_action tx_hash other_call block_hash = ok none

  -- What the search makes of one transaction.
  unfoldable pub check_transaction : Transaction → Outcome RecoveryError Found
  check_transaction tx = do
    tx_hash ← ok_or tx.info_hash hash_not_found
    block_hash ← ok_or tx.block_hash block_hash_not_found
    check_if_tx_is_shielder_action tx_hash tx.input block_hash

  abbrev pub Action : Type 0
  Action = ℕ × ShielderContractEvents

  -- The loop over the block's transactions.
  unfoldable pub find_action :
      ℕ → List Transaction → Outcome RecoveryError (Option (ℕ × ShielderContractEvents))
  find_action nullifier [] = ok none
  find_action nullifier (tx ∷ txs) =
      let rest = find_action nullifier txs in
      check_transaction tx >>= λ found. elim found [
        | none ↦ rest
        | some (event, spent_nullifier) ↦
            if spent_nullifier == nullifier then ok (some (tx.tx_hash, event)) else rest
      ]

  unfoldable pub get_shielder_action :
      ℕ → Outcome RecoveryError (Option (ℕ × ShielderContractEvents))
  get_shielder_action nullifier = do
    spent ← get_block_of_nullifier_spending nullifier
    elim spent [
      | none ↦ ok none
      | some block_number ↦ do
        answer ← ok_or (node.get_block_by_number block_number) provider_error
        txs ← ok_or answer block_not_found
        find_action nullifier txs
    ]

  -- The loop of `recover_state`, on fuel; `spent_hash` is the hash of the account's previous nullifier.
  unfoldable pub recover :
      (ShielderAccount → ℕ) → ℕ → ShielderAccount → Outcome RecoveryError ShielderAccount
  recover spent_hash zero account = panic
  recover spent_hash (suc fuel) account = get_shielder_action (spent_hash account) >>= λ answer.
      elim answer [
        | none ↦ ok account
        | some (tx_hash, event) ↦ do
          next ← or_panic (register_action account (from_event tx_hash event))
          recover spent_hash fuel next
      ]
