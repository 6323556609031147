-- ===== src/Relayer/Recharge.antt =====
-- crates/shielder-relayer/src/recharge.rs: the worker that tops up the relay workers' accounts. The
-- chain is a parameter: what it knows of balances, and a transfer, which may fail and leave a trace.
pub mod Funded
use zk_os_monorepo.Base.{
  ℕ, Bool, true, false, Option, none, some, List, [], ◌∷◌, ltb, if◌then◌else◌,
}
use zk_os_monorepo.Base.Word.{add256}

pub record Chain (S : Type 0) : Type 0 where
  -- `get_balance`, at an address.
  pub get_balance : S → ℕ → Option ℕ
  -- `send_transaction` and `watch`, from an address to another with a value: the chain afterwards, and
  -- whether both succeed.
  pub send_and_watch : S → ℕ → ℕ → ℕ → S × Bool

module _ {S : Type 0} (chain : Chain S)
    (cornucopia_address recharge_threshold recharge_amount : ℕ) where
  unfoldable pub recharge_relayer : S → ℕ → S × Bool
  recharge_relayer s relayer = chain.send_and_watch s cornucopia_address relayer recharge_amount

  -- The balance that is returned is the relayer's afterwards, or `none` for an error.
  unfoldable pub try_recharging_relayer : S → ℕ → S × Option ℕ
  unfolding recharge_relayer
  try_recharging_relayer s relayer = elim (chain.get_balance s relayer) [
    | none ↦ (s, none)
    | some relayer_balance ↦
        if ltb relayer_balance recharge_threshold
        then (let sent = recharge_relayer s relayer in
            (sent.0, if sent.1 then some (add256 recharge_amount relayer_balance) else none))
        else (s, some relayer_balance)
  ]

  -- The worker's loop over the reports: an error is logged, and the next report is read.
  unfoldable pub recharging_worker : S → List ℕ → S
  unfolding try_recharging_relayer
  recharging_worker s [] = s
  recharging_worker s (relayer ∷ relay_reports) =
      recharging_worker (try_recharging_relayer s relayer).0 relay_reports
