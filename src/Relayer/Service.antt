-- ===== src/Relayer/Service.antt =====
-- The handlers of crates/shielder-relayer: the queries of src/lib.rs and src/fee.rs, the quoting of
-- src/quote.rs and the relaying of src/relay/mod.rs. The node, the queue and the workers enter as
-- arguments: a gas price, and what becomes of a registered task. The counters are those that one
-- request adds to.
pub mod Quote
pub mod Relay
pub mod Checked
pub mod Quoted
pub mod Counted
use zk_os_monorepo.Base.{ℕ, List, Option}
use zk_os_monorepo.Setup.Version.{Bytes3}
use zk_os_monorepo.Token.{Token}
use zk_os_monorepo.Relayer.Fee.{FeeDetails}
use zk_os_monorepo.Relayer.QuoteCache.{QuoteCache}
use zk_os_monorepo.Relayer.TokenKind.{TokenInfo}
use zk_os_monorepo.Relayer.Prices.{Prices}

-- What the handlers read of the server's state.
pub record AppState (Decimal : Type 0) : Type 0 where
  pub relay_gas : ℕ
  pub service_fee_percent : ℕ
  pub max_pocket_money : ℕ
  pub fee_destination_address : ℕ
  pub token_config : List (TokenInfo Decimal)
  pub prices : Prices Decimal
  pub quote_cache : QuoteCache Decimal

pub record QuoteFeeQuery : Type 0 where
  pub fee_token : Token
  pub pocket_money : ℕ

pub record PriceDetails (Decimal : Type 0) : Type 0 where
  pub gas_price : ℕ
  pub native_token_price : Decimal
  pub native_token_unit_price : Decimal
  pub fee_token_price : Decimal
  pub fee_token_unit_price : Decimal

pub record QuoteFeeResponse (Decimal : Type 0) : Type 0 where
  pub fee_details : FeeDetails
  pub price_details : PriceDetails Decimal

pub record RelayCalldata : Type 0 where
  pub expected_contract_version : Bytes3
  pub amount : ℕ
  pub withdraw_address : ℕ
  pub merkle_root : ℕ
  pub nullifier_hash : ℕ
  pub new_note : ℕ
  pub proof : List ℕ
  pub fee_token : Token
  pub fee_amount : ℕ
  pub mac_salt : ℕ
  pub mac_commitment : ℕ
  pub pocket_money : ℕ
  pub memo : List ℕ

pub record RelayQuote (Decimal : Type 0) : Type 0 where
  pub gas_price : ℕ
  pub native_token_unit_price : Decimal
  pub fee_token_unit_price : Decimal

-- `From<QuoteFeeResponse> for RelayQuote`
unfoldable pub relay_quote : {Decimal : Type 0} → QuoteFeeResponse Decimal → RelayQuote Decimal
relay_quote response = record {
  gas_price = response.price_details.gas_price;
  native_token_unit_price = response.price_details.native_token_unit_price;
  fee_token_unit_price = response.price_details.fee_token_unit_price;
}

pub record RelayQuery (Decimal : Type 0) : Type 0 where
  pub calldata : RelayCalldata
  pub quote : RelayQuote Decimal
