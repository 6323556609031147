-- ===== src/PowersOfTau.antt =====
-- crates/powers-of-tau/lib.rs: reading the parameters of a ceremony from a .ptau file. A file is the
-- list of its bytes. The fields and curves (halo2curves) are parameters, and so is the reading of the
-- raw format (halo2_proofs). Numbers of u64 and usize wrap at 64 bits, and `1 << k` takes k modulo 64.
pub mod Layout
pub mod Imported
use zk_os_monorepo.Base.{
  ℕ, zero, suc, ◌+◌, ◌-◌, ◌*◌, ◌%◌, ◌^◌, Option, none, some, List, [], ◌∷◌, ◌++◌, length, take,
  drop, leb, if◌then◌else◌,
}
use zk_os_monorepo.Base.Word.{u64_mod}
use zk_os_monorepo.Base.Bytes.{to_le_bytes, from_le_bytes}
use zk_os_monorepo.Outcome.{Outcome, ok, err, panic, ok_or, or_panic, ◌>>=◌}

abbrev pub header_size_offset : ℕ
header_size_offset = 16

abbrev pub header_offset : ℕ
header_offset = header_size_offset + 8

pub data Format : Type 0 where
  raw perpetual_powers_of_tau : Format

pub data IoError : Type 0 where
  unexpected_eof not_found invalid_data : IoError

-- `E::G1Affine::Base`: the size of a representation, and the operations that are used of it.
pub record BaseField : Type 1 where
  pub F : Type 0
  pub size : ℕ
  pub from_repr : List ℕ → Option F
  pub to_repr : F → List ℕ
  pub minus_one : F
  pub mul : F → F → F
  pub invert : F → Option F

-- The points of the two groups, by their coordinates; those of the second are in the extension.
pub record Curves (b : BaseField) : Type 1 where
  pub G1 : Type 0
  pub G2 : Type 0
  pub F2 : Type 0
  pub from_repr2 : List ℕ → Option F2
  pub from_xy1 : b.F → b.F → Option G1
  pub from_xy2 : F2 → F2 → Option G2

-- `seek` to an offset and `read_exact` of a number of bytes.
unfoldable pub read_at : List ℕ → ℕ → ℕ → Outcome IoError (List ℕ)
read_at file offset count =
    let bytes = take count (drop offset file) in
    if leb count (length bytes) then ok bytes else err unexpected_eof

-- An error is unwrapped.
unfoldable pub unwrap {ℓ} : {A : Type ℓ} → Outcome IoError A → Outcome IoError A
unwrap (ok a) = ok a
unwrap (err e) = panic
unwrap panic = panic

unfoldable pub read_header_size : List ℕ → Outcome IoError ℕ
unfolding unwrap
read_header_size file = do
  bytes ← unwrap (read_at file header_size_offset 8)
  ok (from_le_bytes bytes)

unfoldable pub read_k : List ℕ → Outcome IoError ℕ
read_k file = do
  size ← read_header_size file
  bytes ← read_at file (((header_offset + size) % u64_mod + u64_mod - 8) % u64_mod) 4
  ok (from_le_bytes bytes)

unfoldable pub g1_offset : List ℕ → Outcome IoError ℕ
g1_offset file = do size ← read_header_size file; ok ((header_offset + size + 12) % u64_mod)

-- `1 << k`
unfoldable pub shift : ℕ → ℕ
shift k = 2 ^ (k % 64)

-- As many representations of a size, one after the other.
unfoldable pub read_reprs : ℕ → ℕ → ℕ → List ℕ → Outcome IoError (List (List ℕ))
read_reprs size offset zero file = ok []
read_reprs size offset (suc count) file = do
  repr ← read_at file offset size
  reprs ← read_reprs size (offset + size) count file
  ok (repr ∷ reprs)

module _ (b : BaseField) where
  -- The number is written with as few bytes as it has, which must be those of a representation.
  unfoldable pub montgomery_r : Option b.F
  montgomery_r =
      let modulus = from_le_bytes (b.to_repr b.minus_one) + 1 in
      let r_value = 256 ^ b.size % modulus in
      if leb (256 ^ (b.size - 1)) r_value then b.from_repr (to_le_bytes b.size r_value) else none

  unfoldable pub montgomery_r_inverse : Option b.F
  unfolding montgomery_r
  montgomery_r_inverse = elim montgomery_r [ none ↦ none | some r ↦ b.invert r ]

  unfoldable pub g2_offset : List ℕ → Outcome IoError ℕ
  g2_offset file = do
    g1 ← g1_offset file
    k ← read_k file
    let points = ((2 * shift k) % u64_mod + u64_mod - 1) % u64_mod
    ok ((g1 + (2 * b.size * points) % u64_mod + 12) % u64_mod)

  -- A coordinate without its Montgomery factor.
  unfoldable pub coordinate : b.F → List ℕ → Option b.F
  coordinate r_inverse repr = elim (b.from_repr repr) [
    | none ↦ none
    | some x ↦ some (b.mul x r_inverse)
  ]

  module _ (c : Curves b) where
    unfoldable pub g1_points : b.F → List (List ℕ) → Option (List c.G1)
    unfolding coordinate
    g1_points r_inverse [] = some []
    g1_points r_inverse (x ∷ []) = none
    g1_points r_inverse (x ∷ y ∷ reprs) = elim (coordinate r_inverse x) [
      | none ↦ none
      | some x' ↦ elim (coordinate r_inverse y) [
        | none ↦ none
        | some y' ↦ elim (c.from_xy1 x' y') [
          | none ↦ none
          | some point ↦ elim (g1_points r_inverse reprs) [
            | none ↦ none
            | some rest ↦ some (point ∷ rest)
          ]
        ]
      ]
    ]

    unfoldable pub read_g1 : List ℕ → ℕ → Outcome IoError (List c.G1)
    unfolding read_reprs g1_points
    read_g1 file n = do
      offset ← unwrap (g1_offset file)
      reprs ← read_reprs b.size offset ((2 * n) % u64_mod) file
      r_inverse ← or_panic montgomery_r_inverse
      or_panic (g1_points r_inverse reprs)

    -- Both parts of a coordinate in the extension lose the factor.
    unfoldable pub coordinate2 : b.F → List ℕ → Option c.F2
    unfolding coordinate
    coordinate2 r_inverse repr = elim (coordinate r_inverse (take b.size repr)) [
      | none ↦ none
      | some first ↦ elim (coordinate r_inverse (drop b.size repr)) [
        | none ↦ none
        | some second ↦ c.from_repr2 (b.to_repr first ++ b.to_repr second)
      ]
    ]

    unfoldable pub g2_points : b.F → List (List ℕ) → Option (List c.G2)
    unfolding coordinate2
    g2_points r_inverse [] = some []
    g2_points r_inverse (x ∷ []) = none
    g2_points r_inverse (x ∷ y ∷ reprs) = elim (coordinate2 r_inverse x) [
      | none ↦ none
      | some x' ↦ elim (coordinate2 r_inverse y) [
        | none ↦ none
        | some y' ↦ elim (c.from_xy2 x' y') [
          | none ↦ none
          | some point ↦ elim (g2_points r_inverse reprs) [
            | none ↦ none
            | some rest ↦ some (point ∷ rest)
          ]
        ]
      ]
    ]

    unfoldable pub read_g2 : List ℕ → ℕ → Outcome IoError (List c.G2)
    unfolding g2_points
    read_g2 file n = do
      offset ← g2_offset file
      reprs ← read_reprs (2 * b.size) offset (2 * n) file
      r_inverse ← or_panic montgomery_r_inverse
      or_panic (g2_points r_inverse reprs)

    -- `Srs::new(k).from_parts(k, g, None, g2, s_g2)`
    pub record Srs : Type 0 where
      pub k : ℕ
      pub g : List c.G1
      pub g2 : c.G2
      pub s_g2 : c.G2

    -- `try_into` of a list of two.
    unfoldable pub two_points : List c.G2 → Option (c.G2 × c.G2)
    two_points (x ∷ y ∷ []) = some (x, y)
    two_points _ = none

    unfoldable pub read :
        (List ℕ → Outcome IoError Srs) → Option (List ℕ) → Format → Outcome IoError Srs
    unfolding two_points
    read read_custom none format = err not_found
    read read_custom (some file) raw = read_custom file
    read read_custom (some file) perpetual_powers_of_tau = do
      k ← read_k file
      g ← read_g1 file (shift k)
      points ← read_g2 file 2
      pair ← or_panic (two_points points)
      ok (record { k = k; g = g; g2 = pair.0; s_g2 = pair.1 })
