-- ===== src/Relayer/Prices/Update.antt =====
-- One round of `Prices::update` of crates/shielder-relayer/src/price_feed/mod.rs.
use zk_os_monorepo.Base.{
  ◌∙◌, ◌+◌, ℕ, ◌≡◌, refl, Option, none, some, List, [], ◌∷◌, if◌then◌else◌, arith, Option-cases,
  inl, inr, ◌⊎◌,
}
use zk_os_monorepo.Base.Int.{pos}
use zk_os_monorepo.Base.Assoc.{lookup, HasUniqueKeys, lookup-upsert, lookup-congruent}
use zk_os_monorepo.Relayer.Decimal.{Decimals}
use zk_os_monorepo.Relayer.TokenKind.{
  native, erc20, TokenKind, TokenInfo, PriceProvider, url, static, decimals, kind_key, kind_eq,
}
use zk_os_monorepo.Relayer.Prices.{
  timed, Price, PriceInfo, Prices, from_price_info, replace_price, update_token, update_tokens,
  update,
}

-- Each entry stands under its own kind.
abbrev pub IsKeyed : {Decimal : Type 0} → List (TokenKind × TokenInfo Decimal) → Type 0
IsKeyed [] = Unit {0}
IsKeyed ((kind, info) ∷ rest) = (info.kind ≡ kind) × IsKeyed rest

module _ (d : Decimals) where
  -- The price of a token's smallest unit: one tenth of the token's price for each of its places.
  abbrev pub unit_price_of : d.Decimal → TokenKind → Option d.Decimal
  unit_price_of token_price kind =
      elim (d.from_i128_with_scale (pos 1) (elim kind [ native ↦ 18 | erc20 a places ↦ places ])) [
        | none ↦ none
        | some unit ↦ d.multiply token_price unit
      ]

  -- The price that is kept of a fetched one.
  abbrev pub kept_price : ℕ → PriceInfo d.Decimal → d.Decimal → Price d.Decimal
  kept_price validity fetched unit = record {
    token_price = fetched.token_price;
    unit_price = unit;
    expiration = timed (fetched.time + validity) fetched.time;
  }

  from_price_info-none :
      (validity : ℕ) (info : TokenInfo d.Decimal) (fetched : PriceInfo d.Decimal)
      → unit_price_of fetched.token_price info.kind ≡ none
      → from_price_info d fetched (decimals info) validity ≡ none
  unfolding from_price_info decimals
  from_price_info-none validity info fetched e = rw (from_price_info, e) refl

  from_price_info-some :
      (validity : ℕ) (info : TokenInfo d.Decimal) (fetched : PriceInfo d.Decimal) (unit : d.Decimal)
      → unit_price_of fetched.token_price info.kind ≡ some unit
      → from_price_info d fetched (decimals info) validity ≡ some (kept_price validity fetched unit)
  unfolding from_price_info decimals
  from_price_info-some validity info fetched unit e = rw (from_price_info, e) refl

  -- A price that is put into a cell is found there, and no other cell changes.
  replace_price_lem :
      (kind : TokenKind) (p : Price d.Decimal) (prices next : Prices d.Decimal) (k : TokenKind)
      → replace_price d kind p prices ≡ some next
      → (lookup kind_key k next.inner
          ≡ (if kind_eq kind k then some (some p) else lookup kind_key k prices.inner))
        × (next.validity ≡ prices.validity)
  unfolding replace_price
  replace_price_lem kind p prices next k h =
      let found = lookup-upsert kind_key kind k (λ _. some p) (some p) prices.inner in
      elim (Option-cases (lookup kind_key kind prices.inner)) [
        | inl l ↦ ground (arith, l)
        | inr (old, l) ↦ ground (arith, l, found)
      ]

  pub PriceProvider-cases :
      (p : PriceProvider d.Decimal) → ((q : d.Decimal) × (p ≡ static q)) ⊎ ((a : ℕ) × (p ≡ url a))
  PriceProvider-cases (url a) = inr (a, refl)
  PriceProvider-cases (static q) = inl (q, refl)

module _ (d : Decimals) (fetch_price : ℕ → Option (PriceInfo d.Decimal)) where
  abbrev Cell : Type 0
  Cell = Option (Option (Price d.Decimal))

  -- The cell of a token after an update: that of a URL whose price was fetched holds the new price,
  -- valid from its time for the validity; any other is as before.
  abbrev pub refreshed : ℕ → Option (TokenInfo d.Decimal) → Cell → Cell
  refreshed validity none old = old
  refreshed validity (some info) old = elim info.price_provider [
    | static _ ↦ old
    | url address ↦ elim (fetch_price address) [
      | none ↦ old
      | some fetched ↦ elim (unit_price_of d fetched.token_price info.kind) [
        | none ↦ old
        | some unit ↦ some (some (kept_price d validity fetched unit))
      ]
    ]
  ]

  update_token_lem :
      (info : TokenInfo d.Decimal) (prices next : Prices d.Decimal) (k : TokenKind)
      → update_token d fetch_price info prices ≡ some next
      → (lookup kind_key k next.inner ≡ (
          if kind_eq info.kind k
          then refreshed prices.validity (some info) (lookup kind_key k prices.inner)
          else lookup kind_key k prices.inner))
        × (next.validity ≡ prices.validity)
  unfolding update_token
  update_token_lem info prices next k h = elim (PriceProvider-cases d info.price_provider) [
    | inl (p, s) ↦ ground (arith, s)
    | inr (a, s) ↦ elim (Option-cases (fetch_price a)) [
      | inl e ↦ ground (arith, s, e)
      | inr (fetched, e) ↦ elim (Option-cases (unit_price_of d fetched.token_price info.kind)) [
        | inl q ↦ ground (arith, s, e, q, from_price_info-none d prices.validity info fetched q)
        | inr (unit, q) ↦ ground (
          arith,
          s,
          e,
          q,
          from_price_info-some d prices.validity info fetched unit q,
          replace_price_lem d info.kind (kept_price d prices.validity fetched unit) prices next k,
        )
      ]
    ]
  ]

  update_tokens_lem :
      (tokens : List (TokenKind × TokenInfo d.Decimal)) (prices next : Prices d.Decimal)
      (k : TokenKind)
      → IsKeyed tokens
      → HasUniqueKeys kind_key tokens
      → update_tokens d fetch_price tokens prices ≡ some next
      → lookup kind_key k next.inner
        ≡ refreshed prices.validity (lookup kind_key k tokens) (lookup kind_key k prices.inner)
  unfolding update_tokens lookup
  update_tokens_lem [] prices next k keyed unique h = ground arith
  update_tokens_lem ((kind, info) ∷ rest) prices next k (own, keyed) (fresh, unique) h =
      elim (Option-cases (update_token d fetch_price info prices)) [
        | inl e ↦ ground (arith, e)
        | inr (mid, e) ↦ ground (
          arith,
          e,
          update_token_lem info prices mid k e,
          update_tokens_lem rest mid next k keyed unique,
          lookup-congruent kind_key kind k rest,
          own,
          fresh,
        )
      ]

  -- For tokens that stand under their own kinds, each once, a round of `update` that does not panic
  -- puts into the cell of a token with a URL whose price was fetched the fetched price, with a unit
  -- price of that price times ten to minus the token's places and an expiration of the price's time
  -- plus the validity, and leaves every other cell as it was.
  pub update-refreshed :
      (prices next : Prices d.Decimal) (kind : TokenKind)
      → IsKeyed prices.tokens
      → HasUniqueKeys kind_key prices.tokens
      → update d fetch_price prices ≡ some next
      → lookup kind_key kind next.inner
        ≡ refreshed prices.validity
            (lookup kind_key kind prices.tokens)
            (lookup kind_key kind prices.inner)
  unfolding update
  update-refreshed prices next kind keyed unique h =
      update_tokens_lem prices.tokens prices next kind keyed unique h

  update_token-keeps :
      (info : TokenInfo d.Decimal) (prices next : Prices d.Decimal)
      → update_token d fetch_price info prices ≡ some next
      → (next.validity ≡ prices.validity) × (next.tokens ≡ prices.tokens)
  unfolding update_token replace_price
  update_token-keeps info prices next h = elim (PriceProvider-cases d info.price_provider) [
    | inl (p, s) ↦ ground (arith, s, h)
    | inr (a, s) ↦ elim (Option-cases (fetch_price a)) [
      | inl e ↦ ground (arith, s, e, h)
      | inr (fetched, e) ↦
          elim (Option-cases (from_price_info d fetched (decimals info) prices.validity)) [
            | inl q ↦ ground (arith, s, e, q, h)
            | inr (p, q) ↦ elim (Option-cases (lookup kind_key info.kind prices.inner)) [
              | inl l ↦ ground (arith, s, e, q, l, h)
              | inr (old, l) ↦ ground (arith, s, e, q, l, h)
            ]
          ]
    ]
  ]

  -- An update keeps the validity and the tokens.
  pub update_tokens-keeps :
      (tokens : List (TokenKind × TokenInfo d.Decimal)) (prices next : Prices d.Decimal)
      → update_tokens d fetch_price tokens prices ≡ some next
      → (next.validity ≡ prices.validity) × (next.tokens ≡ prices.tokens)
  unfolding update_tokens
  update_tokens-keeps [] prices next h = ground (arith, h)
  update_tokens-keeps ((kind, info) ∷ rest) prices next h =
      elim (Option-cases (update_token d fetch_price info prices)) [
        | inl e ↦ absurd (ground (arith, e, h))
        | inr (mid, e) ↦
            let (v, t) = update_token-keeps info prices mid e in
            let (v', t') = update_tokens-keeps rest mid next (ground (arith, e, h)) in
            (v' ∙ v, t' ∙ t)
      ]
