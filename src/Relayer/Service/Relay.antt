-- ===== src/Relayer/Service/Relay.antt =====
-- crates/shielder-relayer/src/relay/mod.rs.
use zk_os_monorepo.Base.{ℕ, suc, ◌&&◌, not, Option, none, some, ◌==◌, ltb, if◌then◌else◌}
use zk_os_monorepo.Outcome.{Outcome, ok, err, panic, ◌>>=◌, ◌>>◌}
use zk_os_monorepo.Setup.Version.{contract_version, from_bytes, version_eq}
use zk_os_monorepo.Token.{native, token_eq}
use zk_os_monorepo.Calls.Types.{WithdrawCall}
use zk_os_monorepo.Relayer.Decimal.{Decimals}
use zk_os_monorepo.Relayer.Fee.{FeeError, FeeDetails, compute_fee}
use zk_os_monorepo.Relayer.QuoteCache.{CachedQuote, is_quote_valid}
use zk_os_monorepo.Relayer.Trace.{
  RequestTrace, Metrics, new, record_version_mismatch, record_pocket_money_native_withdrawal,
  record_pocket_money_too_high, record_quote_invalidity, record_success, record_failure,
  record_dry_run_failure,
}
use zk_os_monorepo.Relayer.Worker.{TaskResult, dry_run_failed, relay_failed}
use zk_os_monorepo.Relayer.Service.{AppState, RelayCalldata, RelayQuery}

-- The responses, by their status and message.
pub data Refusal : Type 0 where
  version_mismatch pocket_money_native pocket_money_too_high invalid_quote : Refusal
  dry_run_refused relay_refused : Refusal
  fee_not_computed task_not_registered task_failed : Refusal

-- A refusal, the request's trace if it did not go with a lost task, and the counters.
pub record Failure : Type 0 where
  pub refusal : Refusal
  pub trace : Option RequestTrace
  pub metrics : Metrics

abbrev pub refuse : Refusal → RequestTrace × Metrics → Failure
refuse refusal (t, m) = record { refusal = refusal; trace = some t; metrics = m }

-- A check leaves the trace alone, or records and refuses.
abbrev pub Check : Type 0
Check = Outcome Failure (Unit {0})

unfoldable pub check_expected_version : RelayCalldata → RequestTrace × Metrics → Check
check_expected_version calldata tm =
    if not (version_eq (from_bytes calldata.expected_contract_version) contract_version)
    then err (refuse version_mismatch (record_version_mismatch tm))
    else ok tt

unfoldable pub create_call : RelayCalldata → ℕ → ℕ → WithdrawCall
create_call c relayer_address relayer_fee = record {
  amount = c.amount;
  token = c.fee_token;
  expected_contract_version = c.expected_contract_version;
  withdrawal_address = c.withdraw_address;
  relayer_address = relayer_address;
  merkle_root = c.merkle_root;
  old_nullifier_hash = c.nullifier_hash;
  new_note = c.new_note;
  relayer_fee = relayer_fee;
  mac_salt = c.mac_salt;
  mac_commitment = c.mac_commitment;
  proof = c.proof;
  pocket_money = c.pocket_money;
  memo = c.memo;
}

module _ (d : Decimals) where
  open d use {Decimal, equality}

  unfoldable pub check_pocket_money :
      AppState Decimal → RelayQuery Decimal → RequestTrace × Metrics → Check
  check_pocket_money app query tm =
      let pocket_money = query.calldata.pocket_money in
      if token_eq query.calldata.fee_token native && not (pocket_money == 0)
      then err (refuse pocket_money_native (record_pocket_money_native_withdrawal tm))
      else if ltb app.max_pocket_money pocket_money
      then err (refuse pocket_money_too_high (record_pocket_money_too_high tm))
      else ok tt

  abbrev pub quoted : RelayQuery Decimal → CachedQuote Decimal
  quoted query = record {
    fee_token = query.calldata.fee_token;
    gas_price = query.quote.gas_price;
    native_token_unit_price = query.quote.native_token_unit_price;
    fee_token_unit_price = query.quote.fee_token_unit_price;
  }

  unfoldable pub check_quote_validity :
      AppState Decimal → RelayQuery Decimal → ℕ → RequestTrace × Metrics → Check
  check_quote_validity app query now tm =
      if is_quote_valid equality app.quote_cache (quoted query) now
      then ok tt
      else err (refuse invalid_quote (record_quote_invalidity tm))

  -- `.map_err(server_error)?`
  abbrev fees_or_fail :
      RequestTrace × Metrics → Outcome FeeError FeeDetails → Outcome Failure FeeDetails
  fees_or_fail tm (ok fees) = ok fees
  fees_or_fail tm (err e) = err (refuse fee_not_computed tm)
  fees_or_fail tm panic = panic

  -- The handler up to the registration of a task.
  unfoldable pub prepare_relay :
      AppState Decimal
      → RelayQuery Decimal
      → ℕ
      → RequestTrace × Metrics
      → Outcome Failure WithdrawCall
  unfolding check_expected_version check_pocket_money check_quote_validity create_call
  prepare_relay app query now tm = do
    check_expected_version query.calldata tm
    check_pocket_money app query tm
    check_quote_validity app query now tm
    fee_details ← fees_or_fail tm (
        compute_fee d query.quote.gas_price app.relay_gas query.calldata.pocket_money
          app.service_fee_percent query.quote.native_token_unit_price
          query.quote.fee_token_unit_price)
    ok (create_call query.calldata app.fee_destination_address fee_details.total_cost_fee_token)

-- What becomes of a call: the queue is closed, the worker is lost, or the worker reports.
pub data TaskReply : Type 0 where
  not_registered lost : TaskReply
  replied : RequestTrace → TaskResult → TaskReply

unfoldable pub answer_relay : Metrics → TaskReply → Outcome Failure (ℕ × RequestTrace × Metrics)
answer_relay m not_registered =
    err (record { refusal = task_not_registered; trace = none; metrics = m })
answer_relay m lost = err (record {
  refusal = task_failed;
  trace = none;
  metrics = record m { withdraw_failure = suc m.withdraw_failure };
})
answer_relay m (replied t (TaskResult.ok tx_hash)) =
    let (t', m') = record_success tx_hash (t, m) in ok (tx_hash, t', m')
answer_relay m (replied t (dry_run_failed e)) =
    err (refuse dry_run_refused (record_dry_run_failure (t, m)))
answer_relay m (replied t (relay_failed e)) = err (refuse relay_refused (record_failure (t, m)))

-- The whole handler.
unfoldable pub relay :
    (d : Decimals)
    → AppState d.Decimal
    → RelayQuery d.Decimal
    → ℕ
    → Metrics
    → (WithdrawCall → RequestTrace → TaskReply)
    → Outcome Failure (ℕ × RequestTrace × Metrics)
relay d app query now m run_task = do
  let trace = new query.calldata.new_note
  call ← prepare_relay d app query now (trace, m)
  answer_relay m (run_task call trace)
