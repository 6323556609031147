-- ===== src/Recovery/Loop.antt =====
-- What the loop of crates/shielder-cli/src/recovery.rs makes of the actions on the chain.
use zk_os_monorepo.Base.{
  ℕ, zero, suc, ◌<◌, ◌≡◌, refl, ◌↔◌, ◌++◌, none, some, List, [], ◌∷◌, length, arith, Option-cases,
  inl, inr,
}
use zk_os_monorepo.Outcome.{ok, Outcome-cases}
use zk_os_monorepo.Account.Action.{ShielderAction, ShielderContractEvents, from_event}
use zk_os_monorepo.Account.State.{ShielderAccount, register_action}
use zk_os_monorepo.Account.Balance.{IsConsistent}
use mathlib.Core.Path.{subst}
use zk_os_monorepo.Account.History.{register_all, register_all_appends, register_all-IsConsistent}
use zk_os_monorepo.Recovery.{Node, get_shielder_action, recover}

module _ (node : Node) (spent_hash : ShielderAccount → ℕ) where
  -- The chain holds the actions of an account from a state on: each spends the previous nullifier of
  -- the account before it, and that of the last account is not spent.
  pub data Holds : ShielderAccount → List ShielderAction → ShielderAccount → Type 0 where
    ended :
        {account : ShielderAccount}
        → get_shielder_action node (spent_hash account) ≡ ok none
        → Holds account [] account
    acted :
        {account next last : ShielderAccount} {actions : List ShielderAction}
        → (tx_hash : ℕ) (event : ShielderContractEvents)
        → get_shielder_action node (spent_hash account) ≡ ok (some (tx_hash, event))
        → register_action account (from_event tx_hash event) ≡ some next
        → Holds next actions last
        → Holds account (from_event tx_hash event ∷ actions) last

  pub Holds-recover :
      (fuel : ℕ) {account last : ShielderAccount} {actions : List ShielderAction}
      → Holds account actions last
      → length actions < fuel
      → recover node spent_hash fuel account ≡ ok last
  unfolding recover
  Holds-recover zero h f = absurd (omega arith)
  Holds-recover (suc fuel) (ended e) f = ground (arith, e)
  Holds-recover (suc fuel) (acted tx_hash event e r h) f =
      ground (arith, e, r, Holds-recover fuel h (omega arith))

  abbrev Trail : ℕ → ShielderAccount → ShielderAccount → Type 0
  Trail fuel account last =
      (actions : List ShielderAction) × Holds account actions last × (length actions < fuel)

  recover-Holds :
      (account last : ShielderAccount) (fuel : ℕ)
      → recover node spent_hash fuel account ≡ ok last
      → Trail fuel account last
  unfolding recover
  recover-Holds account last zero h = absurd (ground (arith, h))
  recover-Holds account last (suc fuel) h =
      elim (Outcome-cases (get_shielder_action node (spent_hash account))) [
        | inl (none, e) ↦
            let same : account ≡ last = ground (arith, e) in
            ([], subst (Holds account []) same (ended e), omega arith)
        | inl (some (tx_hash, event), e) ↦
            elim (Option-cases (register_action account (from_event tx_hash event))) [
              | inl r ↦ absurd (ground (arith, e, r))
              | inr (next, r) ↦
                  let (actions, held, few) = recover-Holds next last fuel (ground (arith, e, r)) in
                  (from_event tx_hash event ∷ actions, acted tx_hash event e r held, omega arith)
            ]
        | inr (inl (x, e)) ↦ absurd (ground (arith, e))
        | inr (inr e) ↦ absurd (ground (arith, e))
      ]

  -- With fuel for a number of requests, recovery returns an account exactly if the chain holds fewer
  -- actions than that from the given account on, each registered without a panic, that lead to it,
  -- and its own previous nullifier is not spent.
  pub recover_iff :
      (account last : ShielderAccount) (fuel : ℕ)
      → (recover node spent_hash fuel account ≡ ok last)
        ↔ ((actions : List ShielderAction) × Holds account actions last × (length actions < fuel))
  recover_iff account last fuel =
      (recover-Holds account last fuel, λ (actions, held, few). Holds-recover fuel held few)

  Holds-register_all :
      {account last : ShielderAccount} {actions : List ShielderAction}
      → Holds account actions last
      → (register_all account actions ≡ some last)
        × (get_shielder_action node (spent_hash last) ≡ ok none)
  unfolding register_all
  Holds-register_all (ended e) = (refl, e)
  Holds-register_all (acted tx_hash event e r h) = ground (arith, r, Holds-register_all h)

  -- Recovery from a consistent account that succeeds ends in a consistent account, whose history is
  -- the given one and the actions found on the chain, and whose previous nullifier is not spent.
  pub recover-IsConsistent :
      (account last : ShielderAccount) (fuel : ℕ)
      → IsConsistent account
      → recover node spent_hash fuel account ≡ ok last
      → IsConsistent last
        × ((actions : List ShielderAction) × (last.history ≡ account.history ++ actions))
        × (get_shielder_action node (spent_hash last) ≡ ok none)
  recover-IsConsistent account last fuel c h =
      let (actions, held, few) = recover-Holds account last fuel h in
      let (ran, unspent) = Holds-register_all held in
      (
        register_all-IsConsistent account last actions c ran,
        (actions, register_all_appends account last actions ran),
        unspent,
      )
