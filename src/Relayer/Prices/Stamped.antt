-- ===== src/Relayer/Prices/Stamped.antt =====
-- Where the prices that crates/shielder-relayer/src/price_feed/mod.rs keeps come from.
use mathlib.Core.Path.{subst}
use zk_os_monorepo.Base.{
  Bool, ap, ◌∙◌, ℕ, ◌+◌, ◌≡◌, refl, sym, true, false, Option, none, some, List, [], ◌∷◌, arith,
  if◌then◌else◌, Option-cases, Bool-cases, inl, inr,
}
use zk_os_monorepo.Base.Assoc.{lookup, upsert, HasUniqueKeys, lookup-upsert, upsert-HasUniqueKeys}
use zk_os_monorepo.Relayer.Decimal.{Decimals}
use zk_os_monorepo.Relayer.TokenKind.{
  TokenKind, TokenInfo, url, static, kind_key, kind_eq, kind_eq_iff,
}
use zk_os_monorepo.Relayer.Prices.{
  Expiration, eternal, timed, Price, PriceInfo, Prices, static_price, initial_price, add_tokens,
  update,
}
use zk_os_monorepo.Relayer.Prices.Update.{
  IsKeyed, PriceProvider-cases, unit_price_of, kept_price, refreshed, update-refreshed,
  update_tokens-keeps,
}

lookup-put :
    {V : Type 0} (kind k : TokenKind) (v : V) (m : List (TokenKind × V))
    → lookup kind_key k (upsert kind_key kind (λ _. v) v m)
      ≡ (if kind_eq kind k then some v else lookup kind_key k m)
lookup-put kind k v m = elim (Option-cases (lookup kind_key kind m)) [
  | inl e ↦ ground (arith, e, lookup-upsert kind_key kind k (λ _. v) v m)
  | inr (w, e) ↦ ground (arith, e, lookup-upsert kind_key kind k (λ _. v) v m)
]

upsert-IsKeyed :
    {Decimal : Type 0} (info : TokenInfo Decimal) (m : List (TokenKind × TokenInfo Decimal))
    → IsKeyed m
    → IsKeyed (upsert kind_key info.kind (λ _. info) info m)
unfolding upsert
upsert-IsKeyed info [] a = (refl, tt)
upsert-IsKeyed info ((k, v) ∷ m) a = elim (Bool-cases (kind_eq k info.kind)) [
  | inl same ↦ rw same (sym ((kind_eq_iff k info.kind).0 same), a.1)
  | inr other ↦ rw other (a.0, upsert-IsKeyed info m a.1)
]

-- `Given` says what the feed has answered for an address.
module _ (d : Decimals) (validity : ℕ) (Given : ℕ → PriceInfo d.Decimal → Type 0) where
  -- An eternal price is that of a static provider; any other is one that the feed gave for the URL of
  -- the token's provider, and expires when it has been valid for the time given.
  abbrev pub IsSourced : TokenInfo d.Decimal → d.Decimal → Expiration → Type 0
  IsSourced info token_price eternal = info.price_provider ≡ static token_price
  IsSourced info token_price (timed expiration time) =
      (address : ℕ) × (fetched : PriceInfo d.Decimal) × (info.price_provider ≡ url address)
      × Given address fetched
      × (token_price ≡ fetched.token_price)
      × (expiration ≡ fetched.time + validity)

  abbrev pub IsEntry : Option (TokenInfo d.Decimal) → Option (Option (Price d.Decimal)) → Type 0
  IsEntry info none = Unit {0}
  IsEntry info (some none) = Unit {0}
  IsEntry none (some (some p)) = ⊥
  IsEntry (some info) (some (some p)) = IsSourced info p.token_price p.expiration

  pub record AreSourced (prices : Prices d.Decimal) : Type 0 where
    pub keyed : IsKeyed prices.tokens
    pub unique : HasUniqueKeys kind_key prices.tokens
    pub valid : prices.validity ≡ validity
    pub entries :
        (k : TokenKind) → IsEntry (lookup kind_key k prices.tokens) (lookup kind_key k prices.inner)

  same_cell :
      (fetch_price : ℕ → Option (PriceInfo d.Decimal)) (info : TokenInfo d.Decimal)
      (cell after : Option (Option (Price d.Decimal)))
      → refreshed d fetch_price validity (some info) cell ≡ after
      → IsEntry (some info) after
      → IsEntry (some info) (refreshed d fetch_price validity (some info) cell)
  same_cell fetch_price info cell after e h = subst (IsEntry (some info)) (sym e) h

  refreshed-IsEntry :
      (fetch_price : ℕ → Option (PriceInfo d.Decimal))
      (given : (a : ℕ) (i : PriceInfo d.Decimal) → fetch_price a ≡ some i → Given a i)
      (info : Option (TokenInfo d.Decimal)) (cell : Option (Option (Price d.Decimal)))
      → IsEntry info cell
      → IsEntry info (refreshed d fetch_price validity info cell)
  refreshed-IsEntry fetch_price given none cell h = h
  refreshed-IsEntry fetch_price given (some info) cell h =
      elim (PriceProvider-cases d info.price_provider) [
        | inl (q, e) ↦ same_cell fetch_price info cell cell (ground (arith, e)) h
        | inr (a, e) ↦ elim (Option-cases (fetch_price a)) [
          | inl failed ↦ same_cell fetch_price info cell cell (ground (arith, e, failed)) h
          | inr (fetched, f) ↦ elim (Option-cases (unit_price_of d fetched.token_price info.kind)) [
            | inl panic ↦ same_cell fetch_price info cell cell (ground (arith, e, f, panic)) h
            | inr (unit, u) ↦
                same_cell fetch_price info cell (some (some (kept_price d validity fetched unit)))
                  (ground (arith, e, f, u)) (a, fetched, e, given a fetched f, refl, refl)
          ]
        ]
      ]

  pub update-AreSourced :
      (fetch_price : ℕ → Option (PriceInfo d.Decimal))
      (given : (a : ℕ) (i : PriceInfo d.Decimal) → fetch_price a ≡ some i → Given a i)
      (prices next : Prices d.Decimal)
      → AreSourced prices
      → update d fetch_price prices ≡ some next
      → AreSourced next
  unfolding update
  update-AreSourced fetch_price given prices next s h =
      let (v, t) = update_tokens-keeps d fetch_price prices.tokens prices next h in
      record {
        keyed = subst IsKeyed (sym t) s.keyed;
        unique = subst (HasUniqueKeys kind_key) (sym t) s.unique;
        valid = v ∙ s.valid;
        entries = λ k.
            let cell = lookup kind_key k prices.inner in
            let after =
              update-refreshed d fetch_price prices next k s.keyed s.unique h
              ∙ ap (λ n. refreshed d fetch_price n (lookup kind_key k prices.tokens) cell)
                  s.valid in
            subst (λ tokens. IsEntry (lookup kind_key k tokens) (lookup kind_key k next.inner))
              (sym t)
              (subst (IsEntry (lookup kind_key k prices.tokens)) (sym after) (
                refreshed-IsEntry fetch_price given (lookup kind_key k prices.tokens) cell
                  (s.entries k)));
      }

  initial_price-IsEntry :
      (info : TokenInfo d.Decimal) (cell : Option (Price d.Decimal))
      → initial_price d info ≡ some cell
      → IsEntry (some info) (some cell)
  unfolding initial_price static_price
  initial_price-IsEntry info none h = tt
  initial_price-IsEntry info (some p) h = elim (PriceProvider-cases d info.price_provider) [
    | inr (a, e) ↦ absurd (ground (arith, e, h))
    | inl (q, e) ↦
        let lasts : p.expiration ≡ eternal = ground (arith, e, h) in
        let priced : p.token_price ≡ q = ground (arith, e, h) in
        subst (IsSourced info p.token_price) (sym lasts) (e ∙ ap static (sym priced))
  ]

  abbrev with_token :
      TokenInfo d.Decimal → Option (Price d.Decimal) → Prices d.Decimal → Prices d.Decimal
  with_token info cell prices = record prices {
    tokens = upsert kind_key info.kind (λ _. info) info prices.tokens;
    inner = upsert kind_key info.kind (λ _. cell) cell prices.inner;
  }

  put-IsEntry :
      (same : Bool) (info : TokenInfo d.Decimal) (cell : Option (Price d.Decimal))
      (old : Option (TokenInfo d.Decimal)) (old_cell : Option (Option (Price d.Decimal)))
      → IsEntry (some info) (some cell)
      → IsEntry old old_cell
      → IsEntry (if same then some info else old) (if same then some cell else old_cell)
  put-IsEntry true info cell old old_cell put kept = put
  put-IsEntry false info cell old old_cell put kept = kept

  with_token-AreSourced :
      (info : TokenInfo d.Decimal) (cell : Option (Price d.Decimal)) (prices : Prices d.Decimal)
      → IsEntry (some info) (some cell)
      → AreSourced prices
      → AreSourced (with_token info cell prices)
  with_token-AreSourced info cell prices put s = record {
    keyed = upsert-IsKeyed info prices.tokens s.keyed;
    unique = upsert-HasUniqueKeys kind_key info.kind (λ _. info) info prices.tokens s.unique;
    valid = s.valid;
    entries = λ k.
        rw (lookup-put info.kind k info prices.tokens, lookup-put info.kind k cell prices.inner)
          (put-IsEntry (kind_eq info.kind k) info cell (lookup kind_key k prices.tokens)
            (lookup kind_key k prices.inner) put (s.entries k));
  }

  pub add_tokens-AreSourced :
      (infos : List (TokenInfo d.Decimal)) (prices first : Prices d.Decimal)
      → AreSourced prices
      → add_tokens d infos prices ≡ some first
      → AreSourced first
  unfolding add_tokens
  add_tokens-AreSourced [] prices first s h = subst AreSourced (ground (arith, h)) s
  add_tokens-AreSourced (info ∷ infos) prices first s h =
      elim (Option-cases (initial_price d info)) [
        | inl panic ↦ absurd (ground (arith, panic, h))
        | inr (cell, made) ↦
            add_tokens-AreSourced infos (with_token info cell prices) first
              (with_token-AreSourced info cell prices (initial_price-IsEntry info cell made) s)
              (ground (arith, made, h))
      ]
