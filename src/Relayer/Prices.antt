-- ===== src/Relayer/Prices.antt =====
-- crates/shielder-relayer/src/price_feed/mod.rs and price.rs. Each cell of the map is behind a lock
-- of its own that one call holds at a time; times are numbers, and what `now_utc` returns is an
-- argument. `none` of `new`, `update` and the two constructors of a price stands for a panic.
pub mod Validity
pub mod Update
pub mod Stamped
pub mod Recent
pub mod Reported
use zk_os_monorepo.Base.{ℕ, ◌+◌, ◌≡◌, Option, none, some, List, [], ◌∷◌, ltb, if◌then◌else◌}
use zk_os_monorepo.Base.Int.{pos}
use zk_os_monorepo.Base.Assoc.{lookup, upsert}
use zk_os_monorepo.Relayer.Decimal.{Decimals}
use zk_os_monorepo.Relayer.TokenKind.{
  TokenKind, TokenInfo, PriceProvider, url, static, decimals, kind_key,
}

pub data Expiration : Type 0 where
  eternal : Expiration
  timed : ℕ → ℕ → Expiration

pub record Price (Decimal : Type 0) : Type 0 where
  pub token_price : Decimal
  pub unit_price : Decimal
  pub expiration : Expiration

pub record PriceInfo (Decimal : Type 0) : Type 0 where
  pub token_price : Decimal
  pub time : ℕ

pub record Prices (Decimal : Type 0) : Type 0 where
  pub validity : ℕ
  pub tokens : List (TokenKind × TokenInfo Decimal)
  pub inner : List (TokenKind × Option (Price Decimal))

module _ {Decimal : Type 0} where
  unfoldable pub validate : Price Decimal → ℕ → Option (Price Decimal)
  validate price now = elim price.expiration [
    | eternal ↦ some price
    | timed expiration fetched ↦ if ltb now expiration then some price else none
  ]

  validated : Option (Option (Price Decimal)) → ℕ → Option (Price Decimal)
  validated none now = none
  validated (some none) now = none
  validated (some (some p)) now = validate p now

  -- `Prices::price`
  unfoldable pub price : Prices Decimal → TokenKind → ℕ → Option (Price Decimal)
  unfolding validated
  price prices token now = validated (lookup kind_key token prices.inner) now

module _ (d : Decimals) where
  open d use {Decimal, multiply, from_i128_with_scale}

  unit_price : Decimal → ℕ → Option Decimal
  unit_price token_price decimals = elim (from_i128_with_scale (pos 1) decimals) [
    | none ↦ none
    | some unit ↦ multiply token_price unit
  ]

  unfoldable pub static_price : Decimal → ℕ → Option (Price Decimal)
  unfolding unit_price
  static_price token_price decimals = elim (unit_price token_price decimals) [
    | none ↦ none
    | some unit ↦
        some (record { token_price = token_price; unit_price = unit; expiration = eternal })
  ]

  unfoldable pub from_price_info : PriceInfo Decimal → ℕ → ℕ → Option (Price Decimal)
  unfolding unit_price
  from_price_info info decimals validity = elim (unit_price info.token_price decimals) [
    | none ↦ none
    | some unit ↦ some (record {
      token_price = info.token_price;
      unit_price = unit;
      expiration = timed (info.time + validity) info.time;
    })
  ]

  -- The first price of a token: none for a URL.
  unfoldable pub initial_price : TokenInfo Decimal → Option (Option (Price Decimal))
  unfolding static_price
  initial_price info = elim info.price_provider [
    | url _ ↦ some none
    | static p ↦ elim (static_price p (decimals info)) [ none ↦ none | some q ↦ some (some q) ]
  ]

  pub add_tokens : List (TokenInfo Decimal) → Prices Decimal → Option (Prices Decimal)
  add_tokens [] prices = some prices
  add_tokens (info ∷ infos) prices = elim (initial_price info) [
    | none ↦ none
    | some p ↦ add_tokens infos (record prices {
      tokens = upsert kind_key info.kind (λ _. info) info prices.tokens;
      inner = upsert kind_key info.kind (λ _. p) p prices.inner;
    })
  ]

  unfoldable pub new : List (TokenInfo Decimal) → ℕ → Option (Prices Decimal)
  unfolding add_tokens initial_price
  new infos validity = add_tokens infos (record { validity = validity; tokens = []; inner = [] })

  -- `self.inner.get(&kind).unwrap().lock().replace(price)`
  unfoldable pub replace_price :
      TokenKind → Price Decimal → Prices Decimal → Option (Prices Decimal)
  replace_price kind p prices = elim (lookup kind_key kind prices.inner) [
    | none ↦ none
    | some _ ↦
        some (record prices { inner = upsert kind_key kind (λ _. some p) (some p) prices.inner })
  ]

  module _ (fetch_price : ℕ → Option (PriceInfo Decimal)) where
    -- One round of the loop of `update`.
    unfoldable pub update_token : TokenInfo Decimal → Prices Decimal → Option (Prices Decimal)
    update_token info prices = elim info.price_provider [
      | static _ ↦ some prices
      | url address ↦ elim (fetch_price address) [
        | none ↦ some prices
        | some fetched ↦ elim (from_price_info fetched (decimals info) prices.validity) [
          | none ↦ none
          | some p ↦ replace_price info.kind p prices
        ]
      ]
    ]

    unfoldable pub update_tokens :
        List (TokenKind × TokenInfo Decimal) → Prices Decimal → Option (Prices Decimal)
    update_tokens [] prices = some prices
    update_tokens ((kind, info) ∷ rest) prices = elim (update_token info prices) [
      | none ↦ none
      | some next ↦ update_tokens rest next
    ]

    unfoldable pub update : Prices Decimal → Option (Prices Decimal)
    update prices = update_tokens prices.tokens prices
