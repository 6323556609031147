-- ===== src/Relayer/DryRun/Switch.antt =====
-- When the optimistic mode of crates/shielder-relayer/src/relay/monitoring.rs runs dry.
use zk_os_monorepo.Base.{
  ◌↔◌, true, ◌%◌, lt→ltb, ℕ, zero, suc, ◌+◌, ◌<◌, ◌≡◌, refl, ap, ◌∙◌, List, [], ◌∷◌, ◌++◌, length,
  replicate, arith,
}
use zk_os_monorepo.Base.Word.{u32_mod}
use zk_os_monorepo.Relayer.DryRun.{
  optimistic_dry_run_threshold, optimistic, should_dry_run_now, new, Manager, optional, Notice,
  success, failure, notify, notify_all,
}

-- Only successes, or a last failure with successes behind it.
data Shape (counter : ℕ) (ns : List Notice) : Type 0 where
  quiet :
      (n : ℕ)
      → ns ≡ replicate n success
      → notify_all (optional counter) ns ≡ optional (counter + n)
      → Shape counter ns
  failed :
      (before : List Notice) (n : ℕ)
      → ns ≡ before ++ (failure ∷ replicate n success)
      → notify_all (optional counter) ns ≡ optional n
      → Shape counter ns

shape : (counter : ℕ) (ns : List Notice) → counter + length ns < u32_mod → Shape counter ns
unfolding notify_all
shape counter [] h = quiet 0 refl (ap optional (omega arith))
shape counter (success ∷ ns) h = after (shape (counter + 1) ns (omega arith))
  where
    step : notify_all (optional counter) (success ∷ ns) ≡ notify_all (optional (counter + 1)) ns
    step = ap (λ c. notify_all (optional c) ns) (omega arith)

    after : Shape (counter + 1) ns → Shape counter (success ∷ ns)
    after (quiet n e r) =
        quiet (suc n) (ap (λ l. success ∷ l) e) (step ∙ r ∙ ap optional (omega arith))
    after (failed before n e r) = failed (success ∷ before) n (ap (λ l. success ∷ l) e) (step ∙ r)
shape counter (failure ∷ ns) h = after (shape 0 ns (omega arith))
  where
    after : Shape 0 ns → Shape counter (failure ∷ ns)
    after (quiet n e r) = failed [] n (ap (λ l. failure ∷ l) e) (r ∙ ap optional (omega arith))
    after (failed before n e r) = failed (failure ∷ before) n (ap (λ l. failure ∷ l) e) r

notify_all-append :
    (m : Manager) (xs ys : List Notice) → notify_all m (xs ++ ys) ≡ notify_all (notify_all m xs) ys
unfolding notify_all
notify_all-append m [] ys = refl
notify_all-append m (x ∷ xs) ys = notify_all-append (notify m x) xs ys

notify_all-successes :
    (counter n : ℕ)
    → counter + n < u32_mod
    → notify_all (optional counter) (replicate n success) ≡ optional (counter + n)
unfolding notify_all
notify_all-successes counter zero h = ap optional (omega arith)
notify_all-successes counter (suc n) h =
    ap (λ c. notify_all (optional c) (replicate n success)) (omega arith)
    ∙ notify_all-successes (counter + 1) n (omega arith)
    ∙ ap optional (omega arith)

notify_all-optional :
    (counter : ℕ) (ns : List Notice)
    → (after : ℕ) × (notify_all (optional counter) ns ≡ optional after)
unfolding notify_all
notify_all-optional counter [] = (counter, refl)
notify_all-optional counter (success ∷ ns) = notify_all-optional ((counter + 1) % u32_mod) ns
notify_all-optional counter (failure ∷ ns) = notify_all-optional 0 ns

counter_of-run :
    (counter : ℕ) (before : List Notice) (n : ℕ)
    → n < u32_mod
    → notify_all (optional counter) (before ++ (failure ∷ replicate n success)) ≡ optional n
unfolding notify_all
counter_of-run counter before n h =
    notify_all-append (optional counter) before (failure ∷ replicate n success)
    ∙ ap (λ m. notify_all m (failure ∷ replicate n success)) (notify_all-optional counter before).1
    ∙ notify_all-successes 0 n (omega arith)
    ∙ ap optional (omega arith)

-- In the optimistic mode, over fewer than 2 ^ 32 - 32 notices in whatever order the workers give
-- them, a task runs dry exactly if some relay failed and fewer than 32 succeeded since the last one
-- that did.
pub should_dry_run_now-notify_all :
    (ns : List Notice)
    → 32 + length ns < u32_mod
    → (should_dry_run_now (notify_all (new optimistic) ns) ≡ true) ↔ (
        (before : List Notice) × (n : ℕ) × (ns ≡ before ++ (failure ∷ replicate n success))
        × (n < optimistic_dry_run_threshold))
unfolding new should_dry_run_now
should_dry_run_now-notify_all ns h = (forward (shape 32 ns h), backward)
  where
    forward :
        Shape 32 ns
        → should_dry_run_now (notify_all (new optimistic) ns) ≡ true
        → (before : List Notice) × (n : ℕ) × (ns ≡ before ++ (failure ∷ replicate n success))
          × (n < optimistic_dry_run_threshold)
    forward (quiet n e r) dry = absurd (ground (arith, r, dry))
    forward (failed before n e r) dry = (before, n, e, ground (arith, r, dry))

    backward :
        (before : List Notice) × (n : ℕ) × (ns ≡ before ++ (failure ∷ replicate n success))
          × (n < optimistic_dry_run_threshold)
        → should_dry_run_now (notify_all (new optimistic) ns) ≡ true
    backward (before, n, e, small) =
        ap (λ l. should_dry_run_now (notify_all (new optimistic) l)) e
        ∙ ap should_dry_run_now (counter_of-run 32 before n (omega arith))
        ∙ lt→ltb n 32 small
