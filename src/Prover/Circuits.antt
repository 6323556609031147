-- ===== src/Prover/Circuits.antt =====
-- tee/crates/shielder-prover-tee/src/circuits/mod.rs: bytes as the field elements and the Merkle path
-- of a circuit's input. A failed `expect` or `assert_eq` is `none`. `Fr::from_repr`, which `from_bytes`
-- is too, is a parameter, and what makes the proofs (shielder_circuits) is one of the circuits.
pub mod Deposit
pub mod NewAccount
pub mod Withdraw
pub mod Encoded
pub mod Remote
use zk_os_monorepo.Base.{
  ℕ, zero, suc, ◌*◌, Option, none, some, List, [], ◌∷◌, length, take, drop, leb, ◌==◌,
  if◌then◌else◌,
}
use zk_os_monorepo.Base.Options.{◌>>=◌}
use zk_os_monorepo.Conversions.{Field, ok, err, bytes_to_field}
use zk_os_monorepo.MerklePath.{arity, tree_height}

module _ (f : Field) (from_repr : List ℕ → Option f.Fr) where
  unfoldable pub vec_to_f : List ℕ → Option f.Fr
  vec_to_f v = elim (bytes_to_field f from_repr v) [ ok x ↦ some x | err e ↦ none ]

  -- The next chunk's element, or the default where no chunk is left.
  unfoldable pub next_element : List ℕ → Option f.Fr
  next_element bytes =
      if leb 32 (length bytes) then from_repr (take 32 bytes) else some (f.from_limbs 0)

  unfoldable pub path_row : ℕ → List ℕ → Option (List f.Fr)
  unfolding next_element
  path_row zero bytes = some []
  path_row (suc n) bytes = do
    element ← next_element bytes
    row ← path_row n (drop 32 bytes)
    some (element ∷ row)

  unfoldable pub path_rows : ℕ → List ℕ → Option (List (List f.Fr))
  unfolding path_row
  path_rows zero bytes = some []
  path_rows (suc n) bytes = do
    row ← path_row arity bytes
    rows ← path_rows n (drop (32 * arity) bytes)
    some (row ∷ rows)

  unfoldable pub vec_to_path : List ℕ → Option (List (List f.Fr))
  vec_to_path v = if length v == tree_height * arity * 32 then path_rows tree_height v else none
