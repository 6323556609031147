-- ===== src/Relayer/Service/Quote.antt =====
-- crates/shielder-relayer/src/quote.rs. `none` for the gas price is a failure of the node; the
-- prices are read at one time and the quote is stored at another.
use zk_os_monorepo.Base.{ℕ, Option, none, some, List, [], ◌∷◌, if◌then◌else◌}
use zk_os_monorepo.Outcome.{Outcome, ok, err, panic, ok_or, ◌>>=◌}
use zk_os_monorepo.Token.{Token, token_eq}
use zk_os_monorepo.Relayer.Decimal.{Decimals}
use zk_os_monorepo.Relayer.Fee.{FeeError, FeeDetails, compute_fee}
use zk_os_monorepo.Relayer.QuoteCache.{store_quote_response}
use zk_os_monorepo.Relayer.TokenKind.{TokenKind, TokenInfo, from_kind}
use zk_os_monorepo.Relayer.Prices.{Price, price}
use zk_os_monorepo.Relayer.Service.{AppState, QuoteFeeQuery, QuoteFeeResponse}

pub data QuoteError : Type 0 where
  no_gas_price native_price_not_available token_not_supported : QuoteError
  fee_price_not_available : QuoteError
  fee_error : FeeError → QuoteError

-- `?` on a result of `compute_fee`.
abbrev pub from_fee : Outcome FeeError FeeDetails → Outcome QuoteError FeeDetails
from_fee (ok fees) = ok fees
from_fee (err e) = err (fee_error e)
from_fee panic = panic

pub record TokenPrices (Decimal : Type 0) : Type 0 where
  pub fee_token_price : Price Decimal
  pub native_token_price : Price Decimal

module _ (d : Decimals) where
  open d use {Decimal, equality}

  unfoldable pub get_native_token_price : AppState Decimal → ℕ → Outcome QuoteError (Price Decimal)
  get_native_token_price app now =
      ok_or (price app.prices TokenKind.native now) native_price_not_available

  -- `token_config.iter().find(|info| Token::from(info.kind) == token)`
  unfoldable pub find_kind : List (TokenInfo Decimal) → Token → Option TokenKind
  find_kind [] token = none
  find_kind (info ∷ infos) token =
      if token_eq (from_kind info.kind) token then some info.kind else find_kind infos token

  unfoldable pub get_token_price :
      AppState Decimal → Token → ℕ → Outcome QuoteError (TokenPrices Decimal)
  unfolding get_native_token_price
  get_token_price app token now = do
    native_token_price ← get_native_token_price app now
    token_kind ← ok_or (find_kind app.token_config token) token_not_supported
    fee_token_price ← ok_or (price app.prices token_kind now) fee_price_not_available
    ok (record { fee_token_price = fee_token_price; native_token_price = native_token_price })

  unfoldable pub get_prices :
      AppState Decimal → Token → ℕ → Outcome QuoteError (TokenPrices Decimal)
  unfolding get_token_price get_native_token_price
  get_prices app Token.native now = do
    price ← get_native_token_price app now
    ok (record { fee_token_price = price; native_token_price = price })
  get_prices app (Token.erc20 a) now = get_token_price app (Token.erc20 a) now

  -- The new state, with the stored quote, and the response.
  unfoldable pub quote_fees :
      AppState Decimal
      → QuoteFeeQuery
      → Option ℕ
      → ℕ
      → ℕ
      → Outcome QuoteError (AppState Decimal × QuoteFeeResponse Decimal)
  quote_fees app query node_gas_price price_time store_time = do
    gas_price ← ok_or node_gas_price no_gas_price
    prices ← get_prices app query.fee_token price_time
    fee_details ← from_fee (
        compute_fee d gas_price app.relay_gas query.pocket_money app.service_fee_percent
          prices.native_token_price.unit_price prices.fee_token_price.unit_price)
    ok (
      record app {
        quote_cache =
            store_quote_response equality app.quote_cache
              (record {
                fee_token = query.fee_token;
                gas_price = gas_price;
                native_token_unit_price = prices.native_token_price.unit_price;
                fee_token_unit_price = prices.fee_token_price.unit_price;
              })
              store_time;
      },
      record {
        fee_details = fee_details;
        price_details = record {
          gas_price = gas_price;
          native_token_price = prices.native_token_price.token_price;
          native_token_unit_price = prices.native_token_price.unit_price;
          fee_token_price = prices.fee_token_price.token_price;
          fee_token_unit_price = prices.fee_token_price.unit_price;
        };
      },
    )
