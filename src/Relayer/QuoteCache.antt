-- ===== src/Relayer/QuoteCache.antt =====
-- crates/shielder-relayer/src/quote_cache.rs. Each method holds the lock of the map from its first
-- to its last access, so a run of the service is a sequence of whole calls; times are numbers, and
-- what `now_utc` returns is an argument of each call.
pub mod History
use zk_os_monorepo.Base.{
  ℕ, ◌+◌, ◌≡◌, Bool, true, false, ◌&&◌, Option, none, some, List, [], ◌∷◌, max, ◌==◌, ltb, arith,
}
use zk_os_monorepo.Base.Assoc.{Key, lookup, upsert, retain}
use zk_os_monorepo.Token.{Token, token_eq, token_eq_iff}

pub record CachedQuote (Decimal : Type 0) : Type 0 where
  pub fee_token : Token
  pub gas_price : ℕ
  pub native_token_unit_price : Decimal
  pub fee_token_unit_price : Decimal

pub record QuoteCache (Decimal : Type 0) : Type 0 where
  pub validity : ℕ
  pub cache : List (CachedQuote Decimal × ℕ)

module _ {Decimal : Type 0} (equality : Key Decimal) where
  -- The derived `PartialEq`, field by field.
  unfoldable pub quote_eq : CachedQuote Decimal → CachedQuote Decimal → Bool
  quote_eq q r =
      token_eq q.fee_token r.fee_token
      && (q.gas_price == r.gas_price
          && (equality.beq q.native_token_unit_price r.native_token_unit_price
              && equality.beq q.fee_token_unit_price r.fee_token_unit_price))

  pub quote_eq_refl : (q : CachedQuote Decimal) → quote_eq q q ≡ true
  unfolding quote_eq
  quote_eq_refl q = ground (
    arith,
    token_eq_iff q.fee_token q.fee_token,
    equality.beq_refl q.native_token_unit_price,
    equality.beq_refl q.fee_token_unit_price,
  )

  pub quote_eq_sym : (q r : CachedQuote Decimal) → quote_eq q r ≡ true → quote_eq r q ≡ true
  unfolding quote_eq
  quote_eq_sym q r h = ground (
    arith,
    token_eq_iff q.fee_token r.fee_token,
    token_eq_iff r.fee_token q.fee_token,
    equality.beq_sym q.native_token_unit_price r.native_token_unit_price,
    equality.beq_sym q.fee_token_unit_price r.fee_token_unit_price,
  )

  pub quote_eq_trans :
      (q r s : CachedQuote Decimal)
      → quote_eq q r ≡ true
      → quote_eq r s ≡ true
      → quote_eq q s ≡ true
  unfolding quote_eq
  quote_eq_trans q r s h k = ground (
    arith,
    token_eq_iff q.fee_token r.fee_token,
    token_eq_iff r.fee_token s.fee_token,
    token_eq_iff q.fee_token s.fee_token,
    equality.beq_trans q.native_token_unit_price r.native_token_unit_price
        s.native_token_unit_price,
    equality.beq_trans q.fee_token_unit_price r.fee_token_unit_price s.fee_token_unit_price,
  )

  abbrev pub quote_key : Key (CachedQuote Decimal)
  quote_key = record {
    beq = quote_eq;
    beq_refl = quote_eq_refl;
    beq_sym = quote_eq_sym;
    beq_trans = quote_eq_trans;
  }

  unfoldable pub new : ℕ → QuoteCache Decimal
  new quote_validity = record { validity = quote_validity; cache = [] }

  unfoldable pub store_quote_response :
      QuoteCache Decimal → CachedQuote Decimal → ℕ → QuoteCache Decimal
  store_quote_response c quote at =
      let expiration = at + c.validity in
      record c {
        cache = upsert quote_key quote (λ previous. max expiration previous) expiration c.cache;
      }

  unfoldable pub is_quote_valid : QuoteCache Decimal → CachedQuote Decimal → ℕ → Bool
  is_quote_valid c quote now = elim (lookup quote_key quote c.cache) [
    | some expiration ↦ ltb now expiration
    | none ↦ false
  ]

  unfoldable pub collect_garbage : QuoteCache Decimal → ℕ → QuoteCache Decimal
  collect_garbage c now = record c {
    cache = retain quote_key (λ valid_until. ltb now valid_until) c.cache;
  }
