-- ===== src/Relayer/Service/Quoted.antt =====
-- From a quote of crates/shielder-relayer/src/quote.rs to its relay by src/relay/mod.rs.
use zk_os_monorepo.Base.{ℕ, ◌+◌, ◌≤◌, ◌<◌, ◌≡◌, ◌∙◌, sym, Option, List, arith}
use zk_os_monorepo.Outcome.{ok}
use zk_os_monorepo.Setup.Version.{contract_version, from_bytes}
use zk_os_monorepo.Token.{native}
use zk_os_monorepo.Relayer.Decimal.{Decimals}
use zk_os_monorepo.Relayer.Fee.{compute_fee}
use zk_os_monorepo.Relayer.QuoteCache.{store_quote_response}
use zk_os_monorepo.Relayer.QuoteCache.History.{
  Event, run, CollectedBy, Unique, is_quote_valid-store-run,
}
use zk_os_monorepo.Relayer.Prices.{Prices}
use zk_os_monorepo.Relayer.Trace.{RequestTrace, Metrics}
use zk_os_monorepo.Relayer.Service.{
  AppState, QuoteFeeQuery, QuoteFeeResponse, RelayQuery, relay_quote,
}
use zk_os_monorepo.Relayer.Service.Quote.{quote_fees}
use zk_os_monorepo.Relayer.Service.Relay.{prepare_relay, create_call}
use zk_os_monorepo.Relayer.Service.Checked.{prepare_relay_iff}

module _ (d : Decimals) where
  open d use {Decimal, equality}

  -- What a quote stored, and how its fees were computed.
  record IsQuoted (app next : AppState Decimal) (asked : QuoteFeeQuery)
      (response : QuoteFeeResponse Decimal) (store_time : ℕ) : Type 0 where
    stored : next ≡ record app {
      quote_cache =
          store_quote_response equality app.quote_cache
            (record {
              fee_token = asked.fee_token;
              gas_price = response.price_details.gas_price;
              native_token_unit_price = response.price_details.native_token_unit_price;
              fee_token_unit_price = response.price_details.fee_token_unit_price;
            })
            store_time;
    }
    computed :
        compute_fee d response.price_details.gas_price app.relay_gas asked.pocket_money
          app.service_fee_percent response.price_details.native_token_unit_price
          response.price_details.fee_token_unit_price
        ≡ ok response.fee_details

  quote_fees-IsQuoted :
      (app next : AppState Decimal) (asked : QuoteFeeQuery) (response : QuoteFeeResponse Decimal)
      (node_gas_price : Option ℕ) (price_time store_time : ℕ)
      → quote_fees d app asked node_gas_price price_time store_time ≡ ok (next, response)
      → IsQuoted app next asked response store_time
  unfolding quote_fees
  quote_fees-IsQuoted app next asked response node_gas_price price_time store_time h = ground arith

  -- A quote is honoured: let a query for a token and pocket money be quoted, and let any calls on
  -- the cache follow, of which no collection is later than `now`, with any prices. If `now` is
  -- earlier than the storing plus the validity, then a relay query that cites the response, with the
  -- same token and pocket money, the relayer's version, and pocket money within the limit and none
  -- with the native token, becomes a task for the withdrawal that the query describes, whose relayer fee is the total fee of
  -- the response and whose relayer address is the relayer's own.
  pub quote_is_honoured :
      (app next : AppState Decimal) (asked : QuoteFeeQuery) (response : QuoteFeeResponse Decimal)
      (node_gas_price : Option ℕ) (price_time store_time now : ℕ) (es : List (Event Decimal))
      (prices : Prices Decimal) (query : RelayQuery Decimal) (tm : RequestTrace × Metrics)
      → Unique equality app.quote_cache
      → quote_fees d app asked node_gas_price price_time store_time ≡ ok (next, response)
      → CollectedBy equality now es
      → now < store_time + app.quote_cache.validity
      → query.quote ≡ relay_quote response
      → query.calldata.fee_token ≡ asked.fee_token
      → query.calldata.pocket_money ≡ asked.pocket_money
      → from_bytes query.calldata.expected_contract_version ≡ contract_version
      → (asked.fee_token ≡ native → asked.pocket_money ≡ 0)
      → asked.pocket_money ≤ app.max_pocket_money
      → prepare_relay d
          (record next { prices = prices; quote_cache = run equality next.quote_cache es })
          query
          now
          tm
        ≡ ok (record {
          amount = query.calldata.amount;
          token = query.calldata.fee_token;
          expected_contract_version = query.calldata.expected_contract_version;
          withdrawal_address = query.calldata.withdraw_address;
          relayer_address = app.fee_destination_address;
          merkle_root = query.calldata.merkle_root;
          old_nullifier_hash = query.calldata.nullifier_hash;
          new_note = query.calldata.new_note;
          relayer_fee = response.fee_details.total_cost_fee_token;
          mac_salt = query.calldata.mac_salt;
          mac_commitment = query.calldata.mac_commitment;
          proof = query.calldata.proof;
          pocket_money = query.calldata.pocket_money;
          memo = query.calldata.memo;
        })
  unfolding relay_quote create_call
  quote_is_honoured app next asked response node_gas_price price_time store_time now es prices query
        tm unique asks collected early cites token pocket version native_pocket limit =
      let q =
        quote_fees-IsQuoted app next asked response node_gas_price price_time store_time asks in
      let still =
        is_quote_valid-store-run equality app.quote_cache
          (record {
            fee_token = asked.fee_token;
            gas_price = response.price_details.gas_price;
            native_token_unit_price = response.price_details.native_token_unit_price;
            fee_token_unit_price = response.price_details.fee_token_unit_price;
          })
          store_time now es unique collected early in
      (prepare_relay_iff d _ query now tm _).1 (record {
        fees = response.fee_details;
        version = version;
        no_native_pocket = λ e. pocket ∙ native_pocket (sym token ∙ e);
        pocket_limit = ground (arith, q.stored);
        quote_valid = cc (still, q.stored, cites, token);
        fee_computed = cc (q.computed, q.stored, cites, pocket);
        call_created = cc (q.stored);
      })
