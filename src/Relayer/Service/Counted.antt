-- ===== src/Relayer/Service/Counted.antt =====
-- The counters and the trace of a request to crates/shielder-relayer/src/relay/mod.rs.
use zk_os_monorepo.Base.{ℕ, suc, ◌≡◌, Option, none, some, inl, inr, arith}
use zk_os_monorepo.Outcome.{ok, err, Outcome-cases}
use zk_os_monorepo.Calls.Types.{WithdrawCall}
use zk_os_monorepo.Relayer.Decimal.{Decimals}
use zk_os_monorepo.Relayer.Trace.{
  RequestTrace, Metrics, Status, success, version_failure, pocket_money_failure,
  quote_validity_failure, failure, dry_run_failure, record_version_mismatch,
  record_pocket_money_native_withdrawal, record_pocket_money_too_high, record_quote_invalidity,
  record_success, record_failure, record_dry_run_failure, new,
}
use zk_os_monorepo.Relayer.Service.Checked.{IsChecked, prepare_relay_iff}
use zk_os_monorepo.Relayer.Service.{AppState, RelayQuery}
use zk_os_monorepo.Relayer.Service.Relay.{
  Refusal, version_mismatch, pocket_money_native, pocket_money_too_high, invalid_quote,
  dry_run_refused, relay_refused, fee_not_computed, task_not_registered, Failure, TaskReply, relay,
  prepare_relay, answer_relay,
}

-- What a refusal adds to the counters.
abbrev pub counted : Refusal → Metrics → Metrics
counted dry_run_refused m = record m { withdraw_dry_run_failure = suc m.withdraw_dry_run_failure }
counted fee_not_computed m = m
counted task_not_registered m = m
counted _ m = record m { withdraw_failure = suc m.withdraw_failure }

-- The status that the request's trace ends with, if it is still at hand and finished.
abbrev pub status_of : Refusal → Option Status
status_of version_mismatch = some version_failure
status_of pocket_money_native = some pocket_money_failure
status_of pocket_money_too_high = some pocket_money_failure
status_of invalid_quote = some quote_validity_failure
status_of dry_run_refused = some dry_run_failure
status_of relay_refused = some failure
status_of _ = none

abbrev pub final_status : Option RequestTrace → Option Status
final_status none = none
final_status (some t) = t.status

module _ (d : Decimals) (app : AppState d.Decimal) (query : RelayQuery d.Decimal) (now : ℕ) where
  prepare_relay-err :
      (m : Metrics) (f : Failure)
      → prepare_relay d app query now (new query.calldata.new_note, m) ≡ err f
      → (f.metrics ≡ counted f.refusal m) × (final_status f.trace ≡ status_of f.refusal)
  unfolding prepare_relay new record_version_mismatch record_pocket_money_native_withdrawal
      record_pocket_money_too_high record_quote_invalidity
  prepare_relay-err m f h = ground arith

  answer_relay-err :
      (m : Metrics) (reply : TaskReply) (f : Failure)
      → answer_relay m reply ≡ err f
      → (f.metrics ≡ counted f.refusal m) × (final_status f.trace ≡ status_of f.refusal)
  unfolding answer_relay record_success record_failure record_dry_run_failure
  answer_relay-err m reply f h = ground arith

  -- What a refused request adds to the counters and its trace's final status are those of its
  -- refusal: a failed dry run adds one dry-run failure, any other one failure, and all of them end
  -- with a status of their own unless the trace is lost with its task; but a request whose fees are
  -- not computed, or whose task is not registered, adds to no counter and leaves no status.
  pub relay-err :
      (m : Metrics) (run_task : WithdrawCall → RequestTrace → TaskReply) (f : Failure)
      → relay d app query now m run_task ≡ err f
      → (f.metrics ≡ counted f.refusal m) × (final_status f.trace ≡ status_of f.refusal)
  unfolding relay
  relay-err m run_task f h =
      let trace = new query.calldata.new_note in
      elim (Outcome-cases (prepare_relay d app query now (trace, m))) [
        | inl (call, e) ↦ ground (arith, h, e, answer_relay-err m (run_task call trace) f)
        | inr (inl (x, e)) ↦ ground (arith, h, e, prepare_relay-err m f)
        | inr (inr e) ↦ absurd (ground (arith, h, e))
      ]

  -- A request that succeeds adds one success and nothing else, its trace has that status and the
  -- transaction hash of the response, and the query had passed every check.
  pub relay-ok :
      (m after : Metrics) (run_task : WithdrawCall → RequestTrace → TaskReply) (tx_hash : ℕ)
      (t : RequestTrace)
      → relay d app query now m run_task ≡ ok (tx_hash, t, after)
      → (after ≡ record m { withdraw_success = suc m.withdraw_success })
        × (t.status ≡ some success)
        × (t.tx_hash ≡ some tx_hash)
        × ((call : WithdrawCall) × IsChecked d app query now call)
  unfolding relay answer_relay record_success record_failure record_dry_run_failure
  relay-ok m after run_task tx_hash t h =
      let trace = new query.calldata.new_note in
      elim (Outcome-cases (prepare_relay d app query now (trace, m))) [
        | inl (call, e) ↦ (
          ground (arith, h, e),
          ground (arith, h, e),
          ground (arith, h, e),
          (call, (prepare_relay_iff d app query now (trace, m) call).0 e),
        )
        | inr (inl (x, e)) ↦ absurd (ground (arith, h, e))
        | inr (inr e) ↦ absurd (ground (arith, h, e))
      ]
