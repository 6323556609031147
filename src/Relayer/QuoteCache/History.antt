-- ===== src/Relayer/QuoteCache/History.antt =====
-- The cache of crates/shielder-relayer/src/quote_cache.rs against the history of its calls.
use zk_os_monorepo.Base.{
  ◌<◌, true, lt→ltb, ℕ, ◌+◌, ◌≤◌, ◌≡◌, refl, ◌∙◌, Bool, false, ◌&&◌, ◌||◌, List, [], ◌∷◌, max, ltb,
  arith,
}
use zk_os_monorepo.Base.Assoc.{
  Key, lookup, HasUniqueKeys, lookup-upsert, lookup-retain, lookup-congruent, upsert-HasUniqueKeys,
  retain-HasUniqueKeys,
}
use zk_os_monorepo.Relayer.QuoteCache.{
  CachedQuote, QuoteCache, quote_eq, quote_eq_refl, quote_key, new, store_quote_response,
  is_quote_valid, collect_garbage,
}

-- A call that changes the cache, with its time: by a request handler or by the collector.
pub data Event (Decimal : Type 0) : Type 0 where
  stored : CachedQuote Decimal → ℕ → Event Decimal
  collected : ℕ → Event Decimal

module _ {Decimal : Type 0} (equality : Key Decimal) where
  unfoldable pub step : QuoteCache Decimal → Event Decimal → QuoteCache Decimal
  step c (stored quote at) = store_quote_response equality c quote at
  step c (collected now) = collect_garbage equality c now

  unfoldable pub run : QuoteCache Decimal → List (Event Decimal) → QuoteCache Decimal
  run c [] = c
  run c (e ∷ es) = run (step c e) es

  -- Some call stored an equal quote less than the validity before `now`.
  abbrev pub recently_stored : ℕ → CachedQuote Decimal → ℕ → List (Event Decimal) → Bool
  recently_stored validity quote now [] = false
  recently_stored validity quote now (stored q at ∷ es) =
      (quote_eq equality q quote && ltb now (at + validity))
      || recently_stored validity quote now es
  recently_stored validity quote now (collected t ∷ es) = recently_stored validity quote now es

  -- No collection is later than `now`.
  abbrev pub CollectedBy : ℕ → List (Event Decimal) → Type 0
  CollectedBy now [] = Unit
  CollectedBy now (stored q at ∷ es) = CollectedBy now es
  CollectedBy now (collected t ∷ es) = (t ≤ now) × CollectedBy now es

  abbrev pub Unique : QuoteCache Decimal → Type 0
  Unique c = HasUniqueKeys (quote_key equality) c.cache

  store_lem :
      (c : QuoteCache Decimal) (q quote : CachedQuote Decimal) (at now : ℕ)
      → is_quote_valid equality (store_quote_response equality c q at) quote now ≡ (
          (quote_eq equality q quote && ltb now (at + c.validity))
          || is_quote_valid equality c quote now)
  unfolding store_quote_response is_quote_valid
  store_lem c q quote at now = ground (
    arith,
    lookup-upsert (quote_key equality) q quote (λ previous. max (at + c.validity) previous)
        (at + c.validity) c.cache,
    lookup-congruent (quote_key equality) q quote c.cache,
  )

  collect_lem :
      (c : QuoteCache Decimal) (quote : CachedQuote Decimal) (t now : ℕ)
      → t ≤ now
      → Unique c
      → is_quote_valid equality (collect_garbage equality c t) quote now
        ≡ is_quote_valid equality c quote now
  unfolding collect_garbage is_quote_valid
  collect_lem c quote t now h u =
      ground (arith, lookup-retain (quote_key equality) (λ v. ltb t v) quote c.cache u)

  step-Unique : (c : QuoteCache Decimal) (e : Event Decimal) → Unique c → Unique (step c e)
  unfolding step store_quote_response collect_garbage
  step-Unique c (stored q at) u =
      upsert-HasUniqueKeys (quote_key equality) q _ (at + c.validity) c.cache u
  step-Unique c (collected t) u = retain-HasUniqueKeys (quote_key equality) (λ v. ltb t v) c.cache u

  run_lem :
      (c : QuoteCache Decimal) (es : List (Event Decimal)) (quote : CachedQuote Decimal) (now : ℕ)
      → CollectedBy now es
      → Unique c
      → is_quote_valid equality (run c es) quote now
        ≡ (recently_stored c.validity quote now es || is_quote_valid equality c quote now)
  unfolding run
  run_lem c [] quote now h u = refl
  run_lem c (stored q at ∷ es) quote now h u =
      run_lem (step c (stored q at)) es quote now h (step-Unique c (stored q at) u)
      ∙ (unfold step store_quote_response in ground (arith, store_lem c q quote at now))
  run_lem c (collected t ∷ es) quote now h u =
      run_lem (step c (collected t)) es quote now h.1 (step-Unique c (collected t) u)
      ∙ (unfold step collect_garbage in ground (arith, collect_lem c quote t now h.0 u))

  -- After any calls from a new cache, of which no collection is later than `now`, a quote is valid
  -- at `now` exactly if an equal quote was stored less than the validity before: a collection never
  -- drops a valid quote, and a second storing never shortens the first.
  pub is_quote_valid-run :
      (validity : ℕ) (es : List (Event Decimal)) (quote : CachedQuote Decimal) (now : ℕ)
      → CollectedBy now es
      → is_quote_valid equality (run (new equality validity) es) quote now
        ≡ recently_stored validity quote now es
  unfolding new is_quote_valid lookup
  is_quote_valid-run validity es quote now h =
      ground (arith, run_lem (new equality validity) es quote now h tt)

  -- A quote just stored stays valid for the validity, whatever calls follow.
  pub is_quote_valid-store-run :
      (c : QuoteCache Decimal) (quote : CachedQuote Decimal) (at now : ℕ)
      (es : List (Event Decimal))
      → Unique c
      → CollectedBy now es
      → now < at + c.validity
      → is_quote_valid equality (run (store_quote_response equality c quote at) es) quote now ≡ true
  unfolding store_quote_response step
  is_quote_valid-store-run c quote at now es u h early =
      run_lem (store_quote_response equality c quote at) es quote now h
        (step-Unique c (stored quote at) u)
      ∙ ground (
        arith,
        store_lem c quote quote at now,
        quote_eq_refl equality quote,
        lt→ltb now (at + c.validity) early,
      )
