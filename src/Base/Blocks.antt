-- ===== src/Base/Blocks.antt =====
-- What the blocks from one on hold, block after block.
use mathlib.Core.List.{append_assoc}
use zk_os_monorepo.Base.{ℕ, zero, suc, ◌+◌, ◌≡◌, ap, sym, ◌∙◌, List, [], ◌++◌, arith}

module _ {ℓ} {A : Type ℓ} (blocks : ℕ → List A) where
  -- The logs of some blocks from one on.
  abbrev pub logs_of : ℕ → ℕ → List A
  logs_of from zero = []
  logs_of from (suc count) = blocks from ++ logs_of (from + 1) count

  -- Cutting a run of blocks in two.
  pub logs_of-add :
      (from m n mid count : ℕ)
      → mid ≡ from + m
      → count ≡ m + n
      → logs_of from count ≡ logs_of from m ++ logs_of mid n
  logs_of-add from zero n mid count e f =
      ap (λ k. logs_of k count) {x = from} {y = mid} (omega arith)
      ∙ ap (logs_of mid) {x = count} {y = n} (omega arith)
  logs_of-add from (suc m) n mid zero e f = absurd (omega arith)
  logs_of-add from (suc m) n mid (suc count) e f =
      ap (λ l. blocks from ++ l) (logs_of-add (from + 1) m n mid count (omega arith) (omega arith))
      ∙ sym (append_assoc (blocks from) (logs_of (from + 1) m) (logs_of mid n))
