-- ===== src/Relayer/Prices/Reported.antt =====
-- What the metrics read of crates/shielder-relayer/src/price_feed/mod.rs. `current_prices` asks for the
-- time once for each token, so that the time is given by the token; an age is an integer, as the time
-- of a price is the feed's and may lie ahead.
use zk_os_monorepo.Base.{ℕ, ◌≡◌, refl, Option, none, some, List, [], ◌∷◌, arith}
use zk_os_monorepo.Base.Int.{ℤ, pos, sub_ℕ}
use zk_os_monorepo.Base.Assoc.{lookup}
use zk_os_monorepo.Relayer.TokenKind.{TokenKind, TokenInfo, kind_key}
use zk_os_monorepo.Relayer.Prices.{eternal, timed, Price, Prices, price}

module _ {Decimal : Type 0} where
  prices_of :
      Prices Decimal
      → (TokenKind → ℕ)
      → List (TokenKind × TokenInfo Decimal)
      → List (TokenKind × Option (Price Decimal))
  prices_of prices now [] = []
  prices_of prices now ((kind, info) ∷ rest) =
      (kind, price prices kind (now kind)) ∷ prices_of prices now rest

  unfoldable pub current_prices :
      Prices Decimal → (TokenKind → ℕ) → List (TokenKind × Option (Price Decimal))
  unfolding prices_of
  current_prices prices now = prices_of prices now prices.tokens

  unfoldable pub age : ℕ → Option (Price Decimal) → Option ℤ
  age now none = none
  age now (some p) = elim p.expiration [
    | eternal ↦ some (pos 0)
    | timed expiration fetched ↦ some (sub_ℕ now fetched)
  ]

  ages_of : ℕ → List (TokenKind × Option (Price Decimal)) → List (TokenKind × Option ℤ)
  unfolding age
  ages_of now [] = []
  ages_of now ((kind, cell) ∷ rest) = (kind, age now cell) ∷ ages_of now rest

  unfoldable pub price_ages : Prices Decimal → ℕ → List (TokenKind × Option ℤ)
  unfolding ages_of
  price_ages prices now = ages_of now prices.inner

  abbrev pub aged : ℕ → Option (Option (Price Decimal)) → Option (Option ℤ)
  aged now none = none
  aged now (some cell) = some (age now cell)

  lookup-ages_of :
      (kind : TokenKind) (now : ℕ) (m : List (TokenKind × Option (Price Decimal)))
      → lookup kind_key kind (ages_of now m) ≡ aged now (lookup kind_key kind m)
  unfolding lookup ages_of
  lookup-ages_of kind now [] = refl
  lookup-ages_of kind now ((k, cell) ∷ m) = ground (arith, lookup-ages_of kind now m)
