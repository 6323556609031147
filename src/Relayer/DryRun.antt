-- ===== src/Relayer/DryRun.antt =====
-- crates/shielder-relayer/src/relay/monitoring.rs: when workers run a withdrawal dry first. The
-- counter is one atomic that all workers share, so what they do to it is one sequence of notices.
pub mod Switch
use zk_os_monorepo.Base.{ℕ, ◌+◌, ◌%◌, Bool, true, List, [], ◌∷◌, ltb}
use zk_os_monorepo.Base.Word.{u32_mod}

pub data DryRunning : Type 0 where
  always optimistic : DryRunning

-- `ObligatoryDryRun`, or `OptionalDryRun` with its success counter.
pub data Manager : Type 0 where
  obligatory : Manager
  optional : ℕ → Manager

pub data Notice : Type 0 where
  success failure : Notice

abbrev pub optimistic_dry_run_threshold : ℕ
optimistic_dry_run_threshold = 32

-- The manager that `Taskmaster::new` hands to its workers.
unfoldable pub new : DryRunning → Manager
new always = obligatory
new optimistic = optional optimistic_dry_run_threshold

unfoldable pub notice_relay_success : Manager → Manager
notice_relay_success obligatory = obligatory
notice_relay_success (optional counter) = optional ((counter + 1) % u32_mod)

unfoldable pub notice_relay_failure : Manager → Manager
notice_relay_failure obligatory = obligatory
notice_relay_failure (optional counter) = optional 0

unfoldable pub should_dry_run_now : Manager → Bool
should_dry_run_now obligatory = true
should_dry_run_now (optional counter) = ltb counter optimistic_dry_run_threshold

unfoldable pub notify : Manager → Notice → Manager
unfolding notice_relay_success notice_relay_failure
notify m success = notice_relay_success m
notify m failure = notice_relay_failure m

unfoldable pub notify_all : Manager → List Notice → Manager
unfolding notify
notify_all m [] = m
notify_all m (n ∷ ns) = notify_all (notify m n) ns
