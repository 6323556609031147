-- ===== src/Recovery/Search.antt =====
-- What the search of crates/shielder-contract/src/recovery.rs finds for a spent nullifier.
use zk_os_monorepo.Base.{
  ℕ, ◌+◌, ◌<◌, ◌≡◌, ◌≢◌, refl, none, some, List, [], ◌∷◌, ◌++◌, arith, inl, inr, ◌⊎◌,
}
use zk_os_monorepo.Base.Word.{u64_mod}
use zk_os_monorepo.Outcome.{ok}
use zk_os_monorepo.Account.Action.{ShielderContractEvents}
use zk_os_monorepo.Recovery.{
  Node, Transaction, check_transaction, find_action, get_block_of_nullifier_spending,
  get_shielder_action,
}

module _ (node : Node) where
  -- A transaction that is no shielder call, or one that spends another nullifier.
  abbrev pub Passes : ℕ → Transaction → Type 0
  Passes nullifier tx =
      (check_transaction node tx ≡ ok none)
      ⊎ ((event : ShielderContractEvents) × (other : ℕ) × (other ≢ nullifier)
          × (check_transaction node tx ≡ ok (some (event, other))))

  abbrev pub AllPass : ℕ → List Transaction → Type 0
  AllPass nullifier [] = Unit {0}
  AllPass nullifier (tx ∷ txs) = Passes nullifier tx × AllPass nullifier txs

  find_action-skips :
      (nullifier : ℕ) (before txs : List Transaction)
      → AllPass nullifier before
      → find_action node nullifier (before ++ txs) ≡ find_action node nullifier txs
  unfolding find_action
  find_action-skips nullifier [] txs passes = refl
  find_action-skips nullifier (tx ∷ before) txs (inl e, passes) =
      ground (arith, e, find_action-skips nullifier before txs passes)
  find_action-skips nullifier (tx ∷ before) txs (inr (event, other, differs, e), passes) =
      ground (arith, e, differs, find_action-skips nullifier before txs passes)

  -- A nullifier is found to be spent by the transaction that did: if the contract names the block, at
  -- most 2 ^ 64 - 2, and the block holds a call that spends the nullifier after transactions that do
  -- not, then the search returns that call's transaction and event.
  pub get_shielder_action-finds :
      (nullifier block : ℕ) (before after : List Transaction) (tx : Transaction)
      (event : ShielderContractEvents)
      → node.nullifiers nullifier ≡ some (block + 1)
      → block + 1 < u64_mod
      → node.get_block_by_number block ≡ some (some (before ++ tx ∷ after))
      → AllPass nullifier before
      → check_transaction node tx ≡ ok (some (event, nullifier))
      → get_shielder_action node nullifier ≡ ok (some (tx.tx_hash, event))
  unfolding get_shielder_action get_block_of_nullifier_spending
  get_shielder_action-finds nullifier block before after tx event spent small holds passes call =
      let skipped = find_action-skips nullifier before (tx ∷ after) passes in
      let found : find_action node nullifier (tx ∷ after) ≡ ok (some (tx.tx_hash, event)) =
        unfold find_action in ground (arith, call) in
      ground (arith, spent, holds, skipped, found)
