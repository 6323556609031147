-- ===== src/Indexer/Retry.antt =====
-- `retry_with_backoff` of crates/ar-cli/src/main.rs. The command that is run again and again changes
-- the state it finds; delays are milliseconds.
use zk_os_monorepo.Base.{
  ℕ, zero, suc, ◌*◌, ◌^◌, ◌<◌, ◌≡◌, refl, ap, Option, none, some, List, [], ◌∷◌, min, arith,
}

abbrev pub default_backoff : ℕ
default_backoff = 2000

abbrev pub max_backoff : ℕ
max_backoff = 600000

-- How a run of the command ends: with a result, refused for the rate of the requests, or with
-- another error.
pub data Attempt (T E : Type 0) : Type 0 where
  succeeded : T → Attempt T E
  rate_limited : Attempt T E
  failed : E → Attempt T E

pub data Ended (T E : Type 0) : Type 0 where
  returned : T → Ended T E
  returned_error : E → Ended T E

pub record Retried (S T E : Type 0) : Type 0 where
  pub state : S
  pub slept : List ℕ
  pub ended : Ended T E

module _ {S T E : Type 0} (op : S → S × Attempt T E) where
  abbrev pub after_sleep : ℕ → Option (Retried S T E) → Option (Retried S T E)
  after_sleep delay none = none
  after_sleep delay (some rest) = some (record rest { slept = delay ∷ rest.slept })

  -- The loop, on fuel.
  unfoldable pub retry_loop : ℕ → ℕ → S → Option (Retried S T E)
  retry_loop zero delay s = none
  retry_loop (suc fuel) delay s =
      let run = op s in
      let next = min max_backoff (delay * 2) in
      let rest = retry_loop fuel next run.0 in
      elim run.1 [
        | succeeded result ↦ some (record { state = run.0; slept = []; ended = returned result })
        | rate_limited ↦ after_sleep next rest
        | failed e ↦ some (record { state = run.0; slept = []; ended = returned_error e })
      ]

  unfoldable pub retry_with_backoff : ℕ → S → Option (Retried S T E)
  retry_with_backoff fuel s = retry_loop fuel default_backoff s

  -- The state that as many runs leave.
  abbrev pub after : ℕ → S → S
  after zero s = s
  after (suc n) s = after n (op s).0

  abbrev pub attempt_of : Ended T E → Attempt T E
  attempt_of (returned result) = succeeded result
  attempt_of (returned_error e) = failed e

  -- The sleeps from the k-th on, of as many: the default doubled each time, up to the greatest.
  abbrev pub sleeps : ℕ → ℕ → List ℕ
  sleeps k zero = []
  sleeps k (suc n) = min max_backoff (default_backoff * 2 ^ suc k) ∷ sleeps (suc k) n

  doubled :
      (k : ℕ)
      → min max_backoff (min max_backoff (default_backoff * 2 ^ k) * 2)
        ≡ min max_backoff (default_backoff * 2 ^ suc k)
  doubled k = omega arith

  retry_loop_lem :
      (n k fuel : ℕ) (s : S) (e : Ended T E)
      → n < fuel
      → ((i : ℕ) → i < n → (op (after i s)).1 ≡ rate_limited)
      → (op (after n s)).1 ≡ attempt_of e
      → retry_loop fuel (min max_backoff (default_backoff * 2 ^ k)) s
        ≡ some (record { state = after (suc n) s; slept = sleeps k n; ended = e })
  unfolding retry_loop
  retry_loop_lem n k zero s e enough busy last = absurd (omega (arith, enough))
  retry_loop_lem zero k (suc fuel) s (returned t) enough busy last = rw (retry_loop, last) refl
  retry_loop_lem zero k (suc fuel) s (returned_error e) enough busy last =
      rw (retry_loop, last) refl
  retry_loop_lem (suc n) k (suc fuel) s e enough busy last =
      rw (retry_loop, busy 0 (omega arith), doubled k)
        (ap (after_sleep (min max_backoff (default_backoff * 2 ^ suc k))) (
          retry_loop_lem n (suc k) fuel (op s).0 e (omega arith)
            (λ i lt. busy (suc i) (omega arith)) last))

  -- If the first `n` runs of the command, each from the state that the one before left, are refused for
  -- the rate of the requests, and the next run is not, then more than `n` rounds return what that run
  -- returned, be it a result or an error, in the state that it left, and the sleeps before it were two
  -- seconds doubled once, twice, and so on to `n` times, each cut to ten minutes.
  pub retry_with_backoff_lem :
      (n fuel : ℕ) (s : S) (e : Ended T E)
      → n < fuel
      → ((i : ℕ) → i < n → (op (after i s)).1 ≡ rate_limited)
      → (op (after n s)).1 ≡ attempt_of e
      → retry_with_backoff fuel s
        ≡ some (record { state = after (suc n) s; slept = sleeps 0 n; ended = e })
  unfolding retry_with_backoff
  retry_with_backoff_lem n fuel s e enough busy last = retry_loop_lem n 0 fuel s e enough busy last
