-- ===== src/Relayer/Service/Checked.antt =====
-- Exactly which queries the handler of crates/shielder-relayer/src/relay/mod.rs turns into a task,
-- and which call the task then has.
use zk_os_monorepo.Base.{ℕ, ◌≤◌, ◌≡◌, ◌↔◌, true, inl, inr, arith}
use zk_os_monorepo.Outcome.{Outcome, ok, Outcome-cases}
use zk_os_monorepo.Setup.Version.{contract_version, from_bytes, version_eq_iff}
use zk_os_monorepo.Token.{native, token_eq_iff}
use zk_os_monorepo.Calls.Types.{WithdrawCall}
use zk_os_monorepo.Relayer.Decimal.{Decimals}
use zk_os_monorepo.Relayer.Fee.{FeeError, FeeDetails, compute_fee}
use zk_os_monorepo.Relayer.QuoteCache.{is_quote_valid}
use zk_os_monorepo.Relayer.Trace.{RequestTrace, Metrics}
use zk_os_monorepo.Relayer.Service.{AppState, RelayQuery}
use zk_os_monorepo.Relayer.Service.Relay.{prepare_relay, create_call, quoted}

module _ (d : Decimals) (app : AppState d.Decimal) (query : RelayQuery d.Decimal) (now : ℕ) where
  -- The query names the relayer's version, asks for pocket money within the limit and for none with
  -- the native token, and its quote is valid; the call is the query's, paying the fee address the
  -- total fee that the quoted prices give.
  pub record IsChecked (call : WithdrawCall) : Type 0 where
    pub fees : FeeDetails
    pub version : from_bytes query.calldata.expected_contract_version ≡ contract_version
    pub no_native_pocket : query.calldata.fee_token ≡ native → query.calldata.pocket_money ≡ 0
    pub pocket_limit : query.calldata.pocket_money ≤ app.max_pocket_money
    pub quote_valid : is_quote_valid d.equality app.quote_cache (quoted d query) now ≡ true
    pub fee_computed :
        compute_fee d query.quote.gas_price app.relay_gas query.calldata.pocket_money
          app.service_fee_percent query.quote.native_token_unit_price
          query.quote.fee_token_unit_price
        ≡ ok fees
    pub call_created :
        call ≡ create_call query.calldata app.fee_destination_address fees.total_cost_fee_token

  abbrev Fees : Type 0
  Fees = Outcome FeeError FeeDetails

  quoted_fees : Fees
  quoted_fees =
      compute_fee d query.quote.gas_price app.relay_gas query.calldata.pocket_money
        app.service_fee_percent query.quote.native_token_unit_price query.quote.fee_token_unit_price

  IsChecked-of_ok :
      (tm : RequestTrace × Metrics) (call : WithdrawCall)
      → prepare_relay d app query now tm ≡ ok call
      → IsChecked call
  unfolding prepare_relay quoted_fees
  IsChecked-of_ok tm call h =
      let same_version =
        version_eq_iff (from_bytes query.calldata.expected_contract_version) contract_version in
      let is_native = token_eq_iff query.calldata.fee_token native in
      elim (Outcome-cases quoted_fees) [
        | inl (fees, e) ↦ record {
          fees = fees;
          version = ground (arith, h, e, same_version);
          no_native_pocket = ground (arith, h, e, is_native);
          pocket_limit = ground (arith, h, e);
          quote_valid = ground (arith, h, e);
          fee_computed = e;
          call_created = ground (arith, h, e);
        }
        | inr (inl (x, e)) ↦ absurd (ground (arith, h, e))
        | inr (inr e) ↦ absurd (ground (arith, h, e))
      ]

  prepare_relay-of_IsChecked :
      (tm : RequestTrace × Metrics) (call : WithdrawCall)
      → IsChecked call
      → prepare_relay d app query now tm ≡ ok call
  unfolding prepare_relay
  prepare_relay-of_IsChecked tm call c = ground (
    arith,
    c.version,
    version_eq_iff (from_bytes query.calldata.expected_contract_version) contract_version,
    token_eq_iff query.calldata.fee_token native,
    c.no_native_pocket,
    c.pocket_limit,
    c.quote_valid,
    c.fee_computed,
    c.call_created,
  )

  -- Whatever the trace, a query becomes a task's call exactly if it passes every check and its fees
  -- are computed, and then the call is the one that the query and those fees determine.
  pub prepare_relay_iff :
      (tm : RequestTrace × Metrics) (call : WithdrawCall)
      → (prepare_relay d app query now tm ≡ ok call) ↔ IsChecked call
  prepare_relay_iff tm call = (IsChecked-of_ok tm call, prepare_relay-of_IsChecked tm call)
