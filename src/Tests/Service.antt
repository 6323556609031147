-- ===== src/Tests/Service.antt =====
-- The relayer's handlers at concrete requests.
use zk_os_monorepo.Base.Word.{add256, mul256}
use zk_os_monorepo.Base.Assoc.{lookup, upsert}
use zk_os_monorepo.Base.{ℕ, ◌*◌, ◌≡◌, ◌↔◌, refl, none, some, List, [], ◌∷◌, arith}
use zk_os_monorepo.Outcome.{ok, err}
use zk_os_monorepo.Setup.Version.{
  from_bytes, version_eq, contract_version, to_bytes, from_bytes-to_bytes,
}
use zk_os_monorepo.Token.{token_eq, Token}
use zk_os_monorepo.Calls.Types.{WithdrawCall}
use zk_os_monorepo.Relayer.QuoteCache.{
  is_quote_valid, quote_eq, store_quote_response, CachedQuote, QuoteCache,
}
use zk_os_monorepo.Relayer.QuoteCache.History.{Event, stored, collected, run}
use zk_os_monorepo.Relayer.TokenKind.{from_kind, kind_eq, native, erc20, url}
use zk_os_monorepo.Relayer.Fee.{compute_fee, scale_u256}
use zk_os_monorepo.Relayer.Fee.Bounds.{exact_fees}
use zk_os_monorepo.Relayer.Prices.{price, validate, timed, Price}
use zk_os_monorepo.Relayer.Trace.{
  record_pocket_money_too_high, record_success, RequestTrace, Metrics, success,
  pocket_money_failure, created, finished,
}
use zk_os_monorepo.Relayer.Worker.{TaskResult}
use zk_os_monorepo.Relayer.Service.{
  AppState, QuoteFeeQuery, QuoteFeeResponse, RelayQuery, relay_quote,
}
use zk_os_monorepo.Relayer.Service.Quote.{find_kind, get_prices, quote_fees}
use zk_os_monorepo.Relayer.Service.Relay.{
  answer_relay, prepare_relay, relay, create_call, TaskReply, replied, Failure,
  pocket_money_too_high,
}
use zk_os_monorepo.Relayer.Service.Checked.{IsChecked, prepare_relay_iff}
use zk_os_monorepo.Relayer.Service.Quoted.{quote_is_honoured}
use zk_os_monorepo.Relayer.Service.Counted.{counted, status_of, final_status, relay-err}
use zk_os_monorepo.Tests.Fixtures.{fixed_point, equality, one}

abbrev price_of : ℕ → Price ℕ
price_of unit = record { token_price = unit * one; unit_price = unit; expiration = timed 100 0 }

abbrev cached : QuoteCache ℕ
cached = record { validity = 5; cache = [] }

abbrev app : AppState ℕ
app = record {
  relay_gas = 1000;
  service_fee_percent = 10;
  max_pocket_money = 100;
  fee_destination_address = 12;
  token_config =
      record { kind = erc20 5 18; price_provider = url 8 }
      ∷ record { kind = native; price_provider = url 9 }
      ∷ [];
  prices = record {
    validity = 100;
    tokens = [];
    inner = (erc20 5 18, some (price_of 2)) ∷ (native, some (price_of 6)) ∷ [];
  };
  quote_cache = cached;
}

abbrev asked : QuoteFeeQuery
asked = record { fee_token = Token.erc20 5; pocket_money = 50 }

abbrev quote : CachedQuote ℕ
quote = record {
  fee_token = Token.erc20 5;
  gas_price = 3;
  native_token_unit_price = 6;
  fee_token_unit_price = 2;
}

abbrev next : AppState ℕ
next = record app { quote_cache = record { validity = 5; cache = (quote, 15) ∷ [] } }

abbrev response : QuoteFeeResponse ℕ
response = record {
  fee_details = exact_fees 3 1000 50 10 (3 * one) one;
  price_details = record {
    gas_price = 3;
    native_token_price = 6 * one;
    native_token_unit_price = 6;
    fee_token_price = 2 * one;
    fee_token_unit_price = 2;
  };
}

abbrev query : RelayQuery ℕ
query = record {
  calldata = record {
    expected_contract_version = to_bytes contract_version;
    amount = 5000;
    withdraw_address = 11;
    merkle_root = 13;
    nullifier_hash = 14;
    new_note = 15;
    proof = [];
    fee_token = Token.erc20 5;
    fee_amount = 0;
    mac_salt = 16;
    mac_commitment = 17;
    pocket_money = 50;
    memo = [];
  };
  quote = relay_quote response;
}

abbrev trace : RequestTrace
trace = zk_os_monorepo.Relayer.Trace.new 15

abbrev metrics : Metrics
metrics = record { withdraw_success = 0; withdraw_failure = 0; withdraw_dry_run_failure = 0 }

abbrev events : List (Event ℕ)
events = collected 12 ∷ stored quote 2 ∷ collected 13 ∷ []

quote_passes : quote_fees fixed_point app asked (some 3) 9 10 ≡ ok (next, response)
unfolding quote_fees get_prices price lookup kind_eq validate find_kind token_eq from_kind
    compute_fee scale_u256 store_quote_response add256 mul256 upsert
quote_passes = refl

quote_is_honoured_example :
    prepare_relay fixed_point
      (record next { prices = app.prices; quote_cache = run equality next.quote_cache events })
      query
      14
      (trace, metrics)
    ≡ ok (record {
      amount = 5000;
      token = Token.erc20 5;
      expected_contract_version = to_bytes contract_version;
      withdrawal_address = 11;
      relayer_address = 12;
      merkle_root = 13;
      old_nullifier_hash = 14;
      new_note = 15;
      relayer_fee = response.fee_details.total_cost_fee_token;
      mac_salt = 16;
      mac_commitment = 17;
      proof = [];
      pocket_money = 50;
      memo = [];
    })
quote_is_honoured_example =
    quote_is_honoured fixed_point app next asked response (some 3) 9 10 14 events app.prices query
      (trace, metrics) tt quote_passes (omega arith, (omega arith, tt)) (omega arith) refl refl refl
      (from_bytes-to_bytes contract_version) (ground arith) (omega arith)

prepare_relay_iff_example :
    (prepare_relay fixed_point next query 14 (trace, metrics)
      ≡ ok (create_call query.calldata 12 response.fee_details.total_cost_fee_token))
    ↔ IsChecked fixed_point next query 14
        (create_call query.calldata 12 response.fee_details.total_cost_fee_token)
prepare_relay_iff_example =
    prepare_relay_iff fixed_point next query 14 (trace, metrics)
      (create_call query.calldata 12 response.fee_details.total_cost_fee_token)

abbrev worker : WithdrawCall → RequestTrace → TaskReply
worker call t = replied t (TaskResult.ok 77)

abbrev finished_trace : RequestTrace
finished_trace = record {
  created_note = 15;
  measurements = (created, finished) ∷ [];
  current_state = finished;
  relayer_address = none;
  status = some success;
  tx_hash = some 77;
}

relay_passes :
    relay fixed_point next query 14 metrics worker
    ≡ ok (77, finished_trace, record metrics { withdraw_success = 1 })
unfolding relay prepare_relay version_eq from_bytes to_bytes token_eq is_quote_valid lookup quote_eq
    relay_quote compute_fee scale_u256 answer_relay record_success zk_os_monorepo.Relayer.Trace.new
relay_passes = refl

abbrev greedy_query : RelayQuery ℕ
greedy_query = record query { calldata = record query.calldata { pocket_money = 101 } }

abbrev refusal : Failure
refusal = record {
  refusal = pocket_money_too_high;
  trace = some (record finished_trace { status = some pocket_money_failure; tx_hash = none });
  metrics = record metrics { withdraw_failure = 1 };
}

relay_refuses : relay fixed_point next greedy_query 14 metrics worker ≡ err refusal
unfolding relay prepare_relay version_eq from_bytes to_bytes token_eq record_pocket_money_too_high
    zk_os_monorepo.Relayer.Trace.new
relay_refuses = refl

relay-err_example :
    (refusal.metrics ≡ counted pocket_money_too_high metrics)
    × (final_status refusal.trace ≡ status_of pocket_money_too_high)
relay-err_example = relay-err fixed_point next greedy_query 14 metrics worker refusal relay_refuses
