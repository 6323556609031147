-- ===== src/Relayer/Recharge/Funded.antt =====
-- What the worker of crates/shielder-relayer/src/recharge.rs makes of the relayers' balances.
use zk_os_monorepo.Base.{
  ℕ, ◌+◌, ◌≤◌, ◌≡◌, ◌≢◌, Bool, true, false, ◌||◌, ◌&&◌, some, List, [], ◌∷◌, ltb, ◌==◌,
  if◌then◌else◌, arith,
}
use zk_os_monorepo.Relayer.Recharge.{Chain, try_recharging_relayer, recharging_worker}

-- A chain on which each request succeeds: a transfer to another account adds its value to the
-- receiver's balance, and changes no other balance but the sender's.
pub record IsLedger {S : Type 0} (chain : Chain S) (balance : S → ℕ → ℕ) : Type 0 where
  pub answers : (s : S) (a : ℕ) → chain.get_balance s a ≡ some (balance s a)
  pub succeeds : (s : S) (from to value : ℕ) → (chain.send_and_watch s from to value).1 ≡ true
  pub moves :
      (s : S) (from to value a : ℕ)
      → a ≢ from
      → balance (chain.send_and_watch s from to value).0 a
        ≡ (if to == a then balance s a + value else balance s a)

abbrev pub reported : ℕ → List ℕ → Bool
reported a [] = false
reported a (x ∷ xs) = (x == a) || reported a xs

module _ {S : Type 0} (chain : Chain S) (balance : S → ℕ → ℕ) (cornucopia threshold amount : ℕ)
    (ledger : IsLedger chain balance) where
  try_lem :
      (s : S) (relayer a : ℕ)
      → a ≢ cornucopia
      → balance (try_recharging_relayer chain cornucopia threshold amount s relayer).0 a ≡ (
          if (relayer == a) && ltb (balance s a) threshold
          then balance s a + amount
          else balance s a)
  unfolding try_recharging_relayer
  try_lem s relayer a other =
      ground (arith, ledger.answers s relayer, ledger.moves s cornucopia relayer amount a other)

  -- On a ledger, with an amount that is at least the threshold, and for an account other than the
  -- one that pays: after any reports, in any order and as often as they come, an account that was
  -- reported with less than the threshold has got the amount exactly once, and any other account has
  -- what it had.
  pub recharging_worker_lem :
      (s : S) (reports : List ℕ) (a : ℕ)
      → a ≢ cornucopia
      → threshold ≤ amount
      → balance (recharging_worker chain cornucopia threshold amount s reports) a ≡ (
          if reported a reports && ltb (balance s a) threshold
          then balance s a + amount
          else balance s a)
  unfolding recharging_worker
  recharging_worker_lem s [] a other enough = ground arith
  recharging_worker_lem s (x ∷ reports) a other enough =
      let next = (try_recharging_relayer chain cornucopia threshold amount s x).0 in
      ground (arith, try_lem s x a other, recharging_worker_lem next reports a other enough)
