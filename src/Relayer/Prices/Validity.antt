-- ===== src/Relayer/Prices/Validity.antt =====
-- What `Prices::price` of crates/shielder-relayer/src/price_feed/mod.rs hands out.
use zk_os_monorepo.Base.{ℕ, ◌<◌, ◌≡◌, none, some, arith, Option-cases, inl, inr}
use zk_os_monorepo.Base.Assoc.{lookup}
use zk_os_monorepo.Relayer.TokenKind.{TokenKind, kind_key}
use zk_os_monorepo.Relayer.Prices.{Expiration, eternal, timed, Price, Prices, validate, price}

abbrev pub IsFresh : Expiration → ℕ → Type 0
IsFresh eternal now = Unit {0}
IsFresh (timed expiration fetched) now = now < expiration

module _ {Decimal : Type 0} where
  validate-IsFresh :
      (p q : Price Decimal) (now : ℕ) → validate p now ≡ some q → (q ≡ p) × IsFresh p.expiration now
  unfolding validate
  validate-IsFresh p q now h = ground arith

  -- A price that is handed out is the one kept for the token, and is eternal or expires after `now`.
  pub price-IsFresh :
      (prices : Prices Decimal) (token : TokenKind) (now : ℕ) (p : Price Decimal)
      → price prices token now ≡ some p
      → (lookup kind_key token prices.inner ≡ some (some p)) × IsFresh p.expiration now
  unfolding price
  price-IsFresh prices token now p h = elim (Option-cases (lookup kind_key token prices.inner)) [
    | inl e ↦ ground (arith, e)
    | inr (none, e) ↦ ground (arith, e)
    | inr (some q, e) ↦ ground (arith, e, validate-IsFresh q p now)
  ]
