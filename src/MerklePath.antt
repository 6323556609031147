-- ===== src/MerklePath.antt =====
-- `reorganize_merkle_path` of crates/shielder-contract/src/merkle_path.rs; `none` is its error.
pub mod Cells
use zk_os_monorepo.Base.{
  ℕ, zero, suc, ◌+◌, ◌*◌, ◌/◌, ◌%◌, Option, none, some, List, [], ◌∷◌, length, take, replicate,
  get_last?, ◌==◌, if◌then◌else◌,
}

abbrev pub arity : ℕ
arity = 7

abbrev pub tree_height : ℕ
tree_height = 13

-- `xs[n] = f(xs[n])`, for an index within the list.
unfoldable pub modify {ℓ} : {A : Type ℓ} → ℕ → (A → A) → List A → List A
modify n f [] = []
modify zero f (x ∷ xs) = f x ∷ xs
modify (suc n) f (x ∷ xs) = x ∷ modify n f xs

-- `path[row][column] = element`
unfoldable pub set_cell : ℕ → ℕ → ℕ → List (List ℕ) → List (List ℕ)
set_cell row column element path = modify row (modify column (λ _. element)) path

-- The loop over the elements from an index on.
unfoldable pub write_path : ℕ → List ℕ → List (List ℕ) → List (List ℕ)
write_path i [] path = path
write_path i (element ∷ rest) path =
    write_path (i + 1) rest (set_cell (i / arity) (i % arity) element path)

abbrev pub zero_path : List (List ℕ)
zero_path = replicate tree_height (replicate arity 0)

unfoldable pub reorganize_merkle_path : List ℕ → Option (ℕ × List (List ℕ))
unfolding write_path set_cell modify
reorganize_merkle_path merkle_path =
    if length merkle_path == arity * tree_height + 1
    then (elim (get_last? merkle_path) [
      | none ↦ none
      | some root ↦ some (root, write_path 0 (take (arity * tree_height) merkle_path) zero_path)
    ])
    else none
