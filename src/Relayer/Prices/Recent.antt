-- ===== src/Relayer/Prices/Recent.antt =====
-- What the prices of crates/shielder-relayer/src/price_feed/mod.rs hand out, and how old it can be.
use zk_os_monorepo.Base.{
  ℕ, ◌+◌, ◌<◌, ◌≡◌, ◌⊎◌, refl, Option, none, some, List, [], ◌∷◌, arith, Option-cases, inl, inr,
}
use mathlib.Core.Path.{subst}
use zk_os_monorepo.Base.Assoc.{lookup}
use zk_os_monorepo.Relayer.Decimal.{Decimals}
use zk_os_monorepo.Relayer.TokenKind.{TokenKind, TokenInfo, url, static, kind_key}
use zk_os_monorepo.Relayer.Prices.{
  Expiration, eternal, timed, Price, PriceInfo, Prices, price, new, update,
}
use zk_os_monorepo.Relayer.Prices.Validity.{IsFresh, price-IsFresh}
use zk_os_monorepo.Relayer.Prices.Stamped.{
  IsSourced, IsEntry, AreSourced, update-AreSourced, add_tokens-AreSourced,
}

module _ (d : Decimals) (validity : ℕ) where
  -- As many updates, one after another, each with what it fetches.
  abbrev pub updates :
      List (ℕ → Option (PriceInfo d.Decimal)) → Prices d.Decimal → Option (Prices d.Decimal)
  updates [] prices = some prices
  updates (fetch_price ∷ rest) prices = elim (update d fetch_price prices) [
    | none ↦ none
    | some next ↦ updates rest next
  ]

  -- One of the updates fetched this for the address.
  abbrev pub IsFetched : List (ℕ → Option (PriceInfo d.Decimal)) → ℕ → PriceInfo d.Decimal → Type 0
  IsFetched [] address fetched = ⊥
  IsFetched (fetch_price ∷ rest) address fetched =
      (fetch_price address ≡ some fetched) ⊎ IsFetched rest address fetched

  updates-AreSourced :
      (Given : ℕ → PriceInfo d.Decimal → Type 0) (fetches : List (ℕ → Option (PriceInfo d.Decimal)))
      (prices last : Prices d.Decimal)
      → ((a : ℕ) (i : PriceInfo d.Decimal) → IsFetched fetches a i → Given a i)
      → AreSourced d validity Given prices
      → updates fetches prices ≡ some last
      → AreSourced d validity Given last
  updates-AreSourced Given [] prices last given s h =
      subst (AreSourced d validity Given) (ground (arith, h)) s
  updates-AreSourced Given (fetch_price ∷ rest) prices last given s h =
      elim (Option-cases (update d fetch_price prices)) [
        | inl panic ↦ absurd (ground (arith, panic, h))
        | inr (next, e) ↦
            updates-AreSourced Given rest next last (λ a i later. given a i (inr later))
              (update-AreSourced d validity Given fetch_price (λ a i f. given a i (inl f)) prices
                next s e)
              (ground (arith, e, h))
      ]

  -- An eternal price is that of a static provider; any other was fetched for the URL of the token's
  -- provider, with a time less than the validity ago.
  abbrev pub IsRecent :
      List (ℕ → Option (PriceInfo d.Decimal))
      → ℕ
      → TokenInfo d.Decimal
      → d.Decimal
      → Expiration
      → Type 0
  IsRecent fetches now info token_price eternal = info.price_provider ≡ static token_price
  IsRecent fetches now info token_price (timed expiration time) =
      (address : ℕ) × (fetched : PriceInfo d.Decimal) × (info.price_provider ≡ url address)
      × IsFetched fetches address fetched
      × (token_price ≡ fetched.token_price)
      × (now < fetched.time + validity)

  sourced-IsRecent :
      (fetches : List (ℕ → Option (PriceInfo d.Decimal))) (now : ℕ) (info : TokenInfo d.Decimal)
      (token_price : d.Decimal) (e : Expiration)
      → IsSourced d validity (IsFetched fetches) info token_price e
      → IsFresh e now
      → IsRecent fetches now info token_price e
  sourced-IsRecent fetches now info token_price eternal s f = s
  sourced-IsRecent fetches now info token_price (timed expiration time)
        (address, fetched, provider, given, priced, expires) f =
      (address, fetched, provider, given, priced, omega (arith, expires, f))

  entry-IsRecent :
      (fetches : List (ℕ → Option (PriceInfo d.Decimal))) (now : ℕ) (p : Price d.Decimal)
      (known : Option (TokenInfo d.Decimal))
      → IsEntry d validity (IsFetched fetches) known (some (some p))
      → IsFresh p.expiration now
      → (info : TokenInfo d.Decimal) × (known ≡ some info)
        × IsRecent fetches now info p.token_price p.expiration
  entry-IsRecent fetches now p none s f = absurd s
  entry-IsRecent fetches now p (some info) s f =
      (info, refl, sourced-IsRecent fetches now info p.token_price p.expiration s f)

  -- A price that the prices hand out, after any updates since they were made, is the one kept for the
  -- token, and the token is one of the prices': the price is that of its static provider and eternal,
  -- or one that an update fetched for its URL, whose time is less than the validity before. The feed
  -- never hands out an outdated price, whatever the updates fetched.
  pub price-IsRecent :
      (infos : List (TokenInfo d.Decimal)) (fetches : List (ℕ → Option (PriceInfo d.Decimal)))
      (first last : Prices d.Decimal) (token : TokenKind) (now : ℕ) (p : Price d.Decimal)
      → new d infos validity ≡ some first
      → updates fetches first ≡ some last
      → price last token now ≡ some p
      → (lookup kind_key token last.inner ≡ some (some p))
        × ((info : TokenInfo d.Decimal) × (lookup kind_key token last.tokens ≡ some info)
            × IsRecent fetches now info p.token_price p.expiration)
  unfolding new
  price-IsRecent infos fetches first last token now p made run h =
      let (found, fresh) = price-IsFresh last token now p h in
      let start : AreSourced d validity (IsFetched fetches) first =
        add_tokens-AreSourced d validity (IsFetched fetches) infos
          (record { validity = validity; tokens = []; inner = [] }) first
          (record { keyed = tt; unique = tt; valid = refl; entries = λ k. unfold lookup in tt })
          made in
      let kept = updates-AreSourced (IsFetched fetches) fetches first last (λ a i f. f) start run in
      (
        found,
        entry-IsRecent fetches now p (lookup kind_key token last.tokens)
            (subst (IsEntry d validity (IsFetched fetches) (lookup kind_key token last.tokens))
              found (kept.entries token))
            fresh,
      )
