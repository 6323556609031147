-- ===== src/Relayer/Monitor.antt =====
-- crates/shielder-relayer/src/monitor and health_endpoint.rs: the health of the node, kept for a
-- while, and the balances of the signers. The health check of `is_healthy` is in three parts, because
-- other tasks run while it waits for the node: what each does under the lock is one step.
pub mod Paced
pub mod Refreshed
use zk_os_monorepo.Base.{
  ℕ, ◌+◌, ◌-◌, ◌*◌, Bool, true, false, Option, none, some, List, [], ◌∷◌, ltb, if◌then◌else◌,
}
use zk_os_monorepo.Base.Assoc.{number_key, lookup, upsert}

-- `Result<(), String>`; the text is a list of code points.
pub data Health : Type 0 where
  healthy : Health
  unhealthy : List ℕ → Health

-- `InnerRpcMonitor`; times are of the monotonic clock.
pub record RpcMonitor : Type 0 where
  pub is_healthy : Health
  pub last_check_started : ℕ
  pub cache_validity : ℕ

-- `healthy(&rpc_url)` answers `checked`, at time `now`.
unfoldable pub new : ℕ → Health → ℕ → RpcMonitor
new cache_validity checked now = record {
  is_healthy = checked;
  last_check_started = now;
  cache_validity = cache_validity;
}

-- The first locked part of `is_healthy`: whether the caller must check. `elapsed` is 0 at least.
unfoldable pub requires_update : RpcMonitor → ℕ → RpcMonitor × Bool
requires_update m now =
    if ltb m.cache_validity (now - m.last_check_started)
    then (record m { last_check_started = now }, true)
    else (m, false)

-- The locked part of `update_health`, with what the node answered.
unfoldable pub update_health : RpcMonitor → Health → RpcMonitor
update_health m checked = record m { is_healthy = checked }

unfoldable pub health : RpcMonitor → Health
health m = m.is_healthy

pub data Response : Type 0 where
  success temporary_failure : List ℕ → Response

-- The body of `success("Healthy")`.
abbrev pub healthy_text : List ℕ
healthy_text = 72 ∷ 101 ∷ 97 ∷ 108 ∷ 116 ∷ 104 ∷ 121 ∷ []

-- The endpoint's answer to what `is_healthy` returns.
unfoldable pub health_endpoint : Health → Response
health_endpoint healthy = success healthy_text
health_endpoint (unhealthy err) = temporary_failure err

-- `Balances`: the map is made with all signers, and its cells are then replaced.
abbrev pub Balances : Type 0
Balances = List (ℕ × Option ℕ)

-- `set_balance`; a missing address panics, which is `none`.
unfoldable pub set_balance : Balances → ℕ → Option ℕ → Option Balances
set_balance balances address balance = elim (lookup number_key address balances) [
  | none ↦ none
  | some _ ↦ some (upsert number_key address (λ _. balance) balance balances)
]

-- One round of `balance_monitor` over the keys; `none` from the node is an error.
unfoldable pub check_balances : (ℕ → Option ℕ) → Balances → Balances → Option Balances
unfolding set_balance
check_balances get_balance [] balances = some balances
check_balances get_balance ((signer, _) ∷ signers) balances =
    elim (set_balance balances signer (get_balance signer)) [
      | none ↦ none
      | some next ↦ check_balances get_balance signers next
    ]

unfoldable pub balance_monitor_round : (ℕ → Option ℕ) → Balances → Option Balances
unfolding check_balances
balance_monitor_round get_balance balances = check_balances get_balance balances balances
