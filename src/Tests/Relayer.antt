-- ===== src/Tests/Relayer.antt =====
-- The relayer's parts at concrete inputs.
use zk_os_monorepo.Base.{
  ◌+◌, none, ℕ, ◌*◌, ◌^◌, ◌<◌, ◌≡◌, ◌↔◌, ◌⊎◌, ◌++◌, refl, true, false, Option, some, List, [], ◌∷◌,
  replicate, arith,
}
use zk_os_monorepo.Base.Assoc.{lookup, upsert}
use zk_os_monorepo.Outcome.{ok}
use zk_os_monorepo.Token.{Token}
use zk_os_monorepo.Relayer.Fee.{FeeDetails, compute_fee}
use zk_os_monorepo.Relayer.Fee.Bounds.{exact_fees, compute_fee_exact}
use zk_os_monorepo.Relayer.QuoteCache.{CachedQuote, is_quote_valid, new}
use zk_os_monorepo.Relayer.QuoteCache.History.{
  Event, stored, collected, run, recently_stored, is_quote_valid-run,
}
use zk_os_monorepo.Relayer.TokenKind.{TokenInfo, erc20, url, kind_key, kind_eq, decimals}
use zk_os_monorepo.Relayer.Prices.Recent.{updates, price-IsRecent}
use zk_os_monorepo.Relayer.Prices.{
  new as new_prices, initial_price, price, validate, timed, Price, PriceInfo, Prices, update,
  update_tokens, update_token, from_price_info, replace_price,
}
use zk_os_monorepo.Relayer.Prices.Update.{refreshed, update-refreshed}
use zk_os_monorepo.Relayer.Trace.{RequestTrace}
use zk_os_monorepo.Relayer.DryRun.{
  DryRunning, optimistic, Manager, optional, Notice, success, failure, should_dry_run_now,
  notify_all, optimistic_dry_run_threshold,
}
use zk_os_monorepo.Relayer.DryRun.Switch.{should_dry_run_now-notify_all}
use zk_os_monorepo.Relayer.Worker.{
  ContractCall, Answer, accepted, rejected, Task, Effect, relay_task, dry_run,
}
use zk_os_monorepo.Relayer.Worker.Safety.{
  submissions, Settled, Justified, Answered, relay_task_settles,
}
use zk_os_monorepo.Tests.Fixtures.{fixed_point, equality, one}
use zk_os_monorepo.Tests.Calls.{withdrawal}

compute_fee_exact_example :
    compute_fee fixed_point 3 1000 50 10 6 2 ≡ ok (exact_fees 3 1000 50 10 (3 * one) (10 ^ 18))
compute_fee_exact_example =
    compute_fee_exact fixed_point 3 1000 50 10 (3 * one) 6 2 (3 * one) (3 * one) refl refl refl
      (omega arith) (omega arith) (omega arith) (omega arith)

abbrev fees : FeeDetails
fees = exact_fees 3 1000 50 10 (3 * one) (10 ^ 18)

abbrev quote : CachedQuote ℕ
quote = record {
  fee_token = Token.erc20 5;
  gas_price = 3;
  native_token_unit_price = 6;
  fee_token_unit_price = 2;
}

abbrev events : List (Event ℕ)
events = stored quote 10 ∷ collected 12 ∷ stored quote 4 ∷ collected 13 ∷ []

is_quote_valid-run_example :
    is_quote_valid equality (run equality (new equality 5) events) quote 14
    ≡ recently_stored equality 5 quote 14 events
is_quote_valid-run_example =
    is_quote_valid-run equality 5 events quote 14 (omega arith, (omega arith, tt))

should_dry_run_now-notify_all_example :
    (should_dry_run_now (
        notify_all
          (zk_os_monorepo.Relayer.DryRun.new optimistic)
          (success ∷ failure ∷ success ∷ []))
      ≡ true)
    ↔ ((before : List Notice) × (n : ℕ) × (success ∷ failure ∷ success ∷ []
          ≡ before ++ (failure ∷ replicate n success))
        × (n < optimistic_dry_run_threshold))
should_dry_run_now-notify_all_example =
    should_dry_run_now-notify_all (success ∷ failure ∷ success ∷ []) (omega arith)

abbrev node : ContractCall → Answer
node (ContractCall.withdraw_native mode call) = accepted 77
node (ContractCall.withdraw_erc20 mode call value) = rejected 78

abbrev task : Task
task = record { payload = withdrawal; request_trace = zk_os_monorepo.Relayer.Trace.new 15 }

relay_task_settles_example :
    (e : Effect) × (relay_task node 12 (optional 3) task ≡ some e)
    × Settled e e.report.1
    × Justified node withdrawal e.report.1
    × ((should_dry_run_now (optional 3) ≡ false)
        ⊎ ((submissions e.calls ≡ 0)
            ⊎ ((hash : ℕ) × Answered node withdrawal dry_run (accepted hash))))
relay_task_settles_example = relay_task_settles node 12 (optional 3) task

abbrev info : TokenInfo ℕ
info = record { kind = erc20 5 6; price_provider = url 8 }

abbrev old_price : Price ℕ
old_price = record { token_price = one; unit_price = 1; expiration = timed 20 10 }

abbrev new_price : Price ℕ
new_price = record { token_price = 2 * one; unit_price = 2 * 10 ^ 12; expiration = timed 31 21 }

abbrev before : Prices ℕ
before = record {
  validity = 10;
  tokens = (erc20 5 6, info) ∷ [];
  inner = (erc20 5 6, some old_price) ∷ [];
}

abbrev after : Prices ℕ
after = record {
  validity = 10;
  tokens = (erc20 5 6, info) ∷ [];
  inner = (erc20 5 6, some new_price) ∷ [];
}

abbrev fetch : ℕ → Option (PriceInfo ℕ)
fetch address = some (record { token_price = 2 * one; time = 21 })

update_passes : update fixed_point fetch before ≡ some after
unfolding update update_tokens update_token from_price_info replace_price decimals lookup kind_eq
    upsert
update_passes = refl

update-refreshed_example :
    lookup kind_key (erc20 5 6) after.inner
    ≡ refreshed fixed_point fetch 10
        (lookup kind_key (erc20 5 6) before.tokens)
        (lookup kind_key (erc20 5 6) before.inner)
unfolding lookup
update-refreshed_example =
    update-refreshed fixed_point fetch before after (erc20 5 6) (refl, tt) (refl, tt) update_passes

abbrev unfetched : Prices ℕ
unfetched = record {
  validity = 10;
  tokens = (erc20 5 6, info) ∷ [];
  inner = (erc20 5 6, none) ∷ [];
}

made_unfetched : new_prices fixed_point (info ∷ []) 10 ≡ some unfetched
unfolding new_prices initial_price upsert
made_unfetched = refl

updated_once : updates fixed_point 10 (fetch ∷ []) unfetched ≡ some after
unfolding update update_tokens update_token from_price_info replace_price decimals lookup kind_eq
    upsert
updated_once = refl

handed_out : price after (erc20 5 6) 25 ≡ some new_price
unfolding price validate lookup kind_eq
handed_out = refl

price-IsRecent_example :
    (lookup kind_key (erc20 5 6) after.inner ≡ some (some new_price))
    × ((known : TokenInfo ℕ) × (lookup kind_key (erc20 5 6) after.tokens ≡ some known)
        × ((address : ℕ) × (fetched : PriceInfo ℕ) × (known.price_provider ≡ url address)
            × ((fetch address ≡ some fetched) ⊎ ⊥)
            × (2 * one ≡ fetched.token_price)
            × (25 < fetched.time + 10)))
price-IsRecent_example =
    price-IsRecent fixed_point 10 (info ∷ []) (fetch ∷ []) unfetched after (erc20 5 6) 25 new_price
      made_unfetched updated_once handed_out
