-- ===== src/Relayer/Monitor/Refreshed.antt =====
-- A round of crates/shielder-relayer/src/monitor/balance_monitor.rs.
use mathlib.Core.Option
use zk_os_monorepo.Base.{
  ◌≢◌, ℕ, ◌≡◌, refl, Option, none, some, [], ◌∷◌, ◌==◌, if◌then◌else◌, arith, Option-cases,
  Bool-cases, inl, inr,
}
use zk_os_monorepo.Base.Assoc.{equal_refl, number_key, lookup, upsert, lookup-upsert}
use zk_os_monorepo.Relayer.Monitor.{Balances, check_balances, balance_monitor_round}

-- What a round over some signers puts at an address.
abbrev pub refreshed : (ℕ → Option ℕ) → Balances → ℕ → Option (Option ℕ) → Option (Option ℕ)
refreshed get_balance [] a old = old
refreshed get_balance ((signer, _) ∷ signers) a old =
    if signer == a then some (get_balance a) else refreshed get_balance signers a old

refreshed_lem :
    (get_balance : ℕ → Option ℕ) (signers : Balances) (a : ℕ) (old : Option (Option ℕ))
    → refreshed get_balance signers a old
      ≡ elim (lookup number_key a signers) [ none ↦ old | some _ ↦ some (get_balance a) ]
unfolding lookup
refreshed_lem get_balance [] a old = refl
refreshed_lem get_balance ((signer, b) ∷ signers) a old =
    ground (arith, refreshed_lem get_balance signers a old)

known_after :
    (signer : ℕ) (answer b : Option ℕ) (balances signers : Balances)
    → ((a : ℕ)
        → lookup number_key a ((signer, b) ∷ signers) ≢ none
        → lookup number_key a balances ≢ none)
    → (a : ℕ) → lookup number_key a signers ≢ none
    → lookup number_key a (upsert number_key signer (λ _. answer) answer balances) ≢ none
unfolding lookup
known_after signer answer b balances signers known a h e = elim (Bool-cases (signer == a)) [
  | inl same ↦
      absurd
        (ground (arith, same, e, lookup-upsert number_key signer a (λ _. answer) answer balances))
  | inr other ↦
      known a (λ q. h (ground (arith, other, q)))
        (ground (arith, other, e, lookup-upsert number_key signer a (λ _. answer) answer balances))
]

check_balances_lem :
    (get_balance : ℕ → Option ℕ) (signers balances : Balances)
    → ((a : ℕ) → lookup number_key a signers ≢ none → lookup number_key a balances ≢ none)
    → (next : Balances) × (check_balances get_balance signers balances ≡ some next)
      × ((a : ℕ)
          → lookup number_key a next
            ≡ refreshed get_balance signers a (lookup number_key a balances))
unfolding check_balances lookup
check_balances_lem get_balance [] balances known = (balances, refl, λ a. refl)
check_balances_lem get_balance ((signer, b) ∷ signers) balances known =
    elim (Option-cases (lookup number_key signer balances)) [
      | inl missing ↦ absurd (known signer (ground (arith, equal_refl signer)) missing)
      | inr (old, e) ↦
          let answer = get_balance signer in
          let next = upsert number_key signer (λ _. answer) answer balances in
          let (result, ran, there) =
            check_balances_lem get_balance signers next
              (known_after signer answer b balances signers known) in
          (
            result,
            ground (arith, e, ran),
            λ a. ground (
              arith,
              there a,
              e,
              lookup-upsert number_key signer a (λ _. answer) answer balances,
              refreshed_lem get_balance signers a (lookup number_key a next),
              refreshed_lem get_balance signers a (lookup number_key a balances),
            ),
          )
    ]

-- A round asks the node for each signer once and does not panic, and the map then has at each
-- signer's address what the node answered, `none` where it failed, and no other address.
pub balance_monitor_round_lem :
    (get_balance : ℕ → Option ℕ) (balances : Balances)
    → (next : Balances) × (balance_monitor_round get_balance balances ≡ some next)
      × ((a : ℕ)
          → lookup number_key a next
            ≡ Option.map (λ _. get_balance a) (lookup number_key a balances))
unfolding balance_monitor_round
balance_monitor_round_lem get_balance balances =
    let (next, ran, there) = check_balances_lem get_balance balances balances (λ a h. h) in
    (
      next,
      ran,
      λ a.
          ground
            (arith, there a, refreshed_lem get_balance balances a (lookup number_key a balances)),
    )
