-- ===== src/Relayer/Trace.antt =====
-- crates/shielder-relayer/src/relay/request_trace.rs, with the counters of metrics.rs that it
-- increments. Durations and log lines are left out; the names of states and statuses are data.
use zk_os_monorepo.Base.{ℕ, suc, Option, none, some, List, [], ◌∷◌, ◌++◌}

pub data State : Type 0 where
  created queued_for_relay received_by_worker dry_run_completed relay_completed finished : State

pub data Status : Type 0 where
  success version_failure fee_token_failure fee_amount_failure pocket_money_failure : Status
  quote_validity_failure failure dry_run_failure : Status

pub record RequestTrace : Type 0 where
  pub created_note : ℕ
  pub measurements : List (State × State)
  pub current_state : State
  pub relayer_address : Option ℕ
  pub status : Option Status
  pub tx_hash : Option ℕ

-- WITHDRAW_SUCCESS, WITHDRAW_FAILURE and WITHDRAW_DRY_RUN_FAILURE.
pub record Metrics : Type 0 where
  pub withdraw_success : ℕ
  pub withdraw_failure : ℕ
  pub withdraw_dry_run_failure : ℕ

unfoldable pub new : ℕ → RequestTrace
new new_note = record {
  created_note = new_note;
  measurements = [];
  current_state = created;
  relayer_address = none;
  status = none;
  tx_hash = none;
}

unfoldable pub record_state : State → RequestTrace → RequestTrace
record_state new_state t = record t {
  measurements = t.measurements ++ (t.current_state, new_state) ∷ [];
  current_state = new_state;
}

unfoldable pub set_relayer_address : ℕ → RequestTrace → RequestTrace
set_relayer_address relayer t = record t { relayer_address = some relayer }

unfoldable pub finish : Status → RequestTrace → RequestTrace
unfolding record_state
finish status t = record (record_state finished t) { status = some status }

unfoldable pub record_success : ℕ → RequestTrace × Metrics → RequestTrace × Metrics
unfolding finish
record_success tx_hash (t, m) = (
  finish success (record t { tx_hash = some tx_hash }),
  record m { withdraw_success = suc m.withdraw_success },
)

-- The recorders of failures count one failure and finish with their status.
record_failed : Status → RequestTrace × Metrics → RequestTrace × Metrics
unfolding finish
record_failed status (t, m) =
    (finish status t, record m { withdraw_failure = suc m.withdraw_failure })

unfoldable pub record_version_mismatch : RequestTrace × Metrics → RequestTrace × Metrics
unfolding record_failed
record_version_mismatch = record_failed version_failure

unfoldable pub record_incorrect_token_fee : RequestTrace × Metrics → RequestTrace × Metrics
unfolding record_failed
record_incorrect_token_fee = record_failed fee_token_failure

unfoldable pub record_insufficient_fee : RequestTrace × Metrics → RequestTrace × Metrics
unfolding record_failed
record_insufficient_fee = record_failed fee_amount_failure

unfoldable pub record_pocket_money_too_high : RequestTrace × Metrics → RequestTrace × Metrics
unfolding record_failed
record_pocket_money_too_high = record_failed pocket_money_failure

unfoldable pub record_pocket_money_native_withdrawal :
    RequestTrace × Metrics → RequestTrace × Metrics
unfolding record_failed
record_pocket_money_native_withdrawal = record_failed pocket_money_failure

unfoldable pub record_quote_invalidity : RequestTrace × Metrics → RequestTrace × Metrics
unfolding record_failed
record_quote_invalidity = record_failed quote_validity_failure

unfoldable pub record_failure : RequestTrace × Metrics → RequestTrace × Metrics
unfolding record_failed
record_failure = record_failed failure

unfoldable pub record_dry_run_failure : RequestTrace × Metrics → RequestTrace × Metrics
unfolding finish
record_dry_run_failure (t, m) = (
  finish dry_run_failure t,
  record m { withdraw_dry_run_failure = suc m.withdraw_dry_run_failure },
)
