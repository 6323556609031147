-- ===== src/Tests/Upkeep.antt =====
-- The relayer's upkeep: a ledger on which balances are a function, a monitor and two signers.
use zk_os_monorepo.Base.{
  List, ℕ, ◌+◌, ◌-◌, ◌*◌, ◌≤◌, ◌≡◌, refl, true, Option, none, some, [], ◌∷◌, ltb, ◌==◌, ◌&&◌,
  if◌then◌else◌, arith,
}
use zk_os_monorepo.Relayer.Recharge.{Chain, recharging_worker}
use zk_os_monorepo.Relayer.Recharge.Funded.{IsLedger, reported, recharging_worker_lem}
use zk_os_monorepo.Relayer.Monitor.{healthy, unhealthy, new, health, Balances}
use zk_os_monorepo.Relayer.Monitor.Paced.{
  Event, asked, answered, run, checks, checks_paced, last_answer,
}

abbrev ledger : Chain (ℕ → ℕ)
ledger = record {
  get_balance = λ s a. some (s a);
  send_and_watch = λ s from to value.
      ((λ a. if to == a then s a + value else if from == a then s a - value else s a), true);
}

ledger-IsLedger : IsLedger ledger (λ s. s)
ledger-IsLedger = record {
  answers = λ s a. refl;
  succeeds = λ s from to value. refl;
  moves = λ s from to value a other. ground (arith, other);
}

-- The account 1 pays; all others have 5.
abbrev start : ℕ → ℕ
start a = if a == 1 then 1000 else 5

recharging_worker_lem_example :
    recharging_worker ledger 1 10 50 start (2 ∷ 3 ∷ 2 ∷ []) 2
    ≡ (if reported 2 (2 ∷ 3 ∷ 2 ∷ []) && ltb (start 2) 10 then start 2 + 50 else start 2)
recharging_worker_lem_example =
    recharging_worker_lem ledger (λ s. s) 1 10 50 ledger-IsLedger start (2 ∷ 3 ∷ 2 ∷ []) 2
      (omega arith) (omega arith)

abbrev events : List Event
events =
    asked 8
    ∷ asked 16
    ∷ asked 17
    ∷ answered (unhealthy (33 ∷ []))
    ∷ asked 29
    ∷ answered healthy
    ∷ []

checks_paced_example :
    (checks (new 10 healthy 5) events * 11 ≤ 30 - 5)
    × (health (run (new 10 healthy 5) events) ≡ last_answer healthy events)
checks_paced_example =
    checks_paced 10 5 30 healthy events
      (omega arith, (omega arith, (omega arith, (omega arith, tt)))) (omega arith)

abbrev get_balance : ℕ → Option ℕ
get_balance a = if a == 4 then none else some (a * 7)

abbrev balances : Balances
balances = (3, none) ∷ (4, some 9) ∷ []
