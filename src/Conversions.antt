-- ===== src/Conversions.antt =====
-- crates/type-conversions/lib.rs: numbers, field elements and addresses. An address is a number
-- below 2 ^ 160 whose `as_slice` is its 20 bytes, most significant first.
pub mod Roundtrip
use mathlib.Core.List.{reverse}
use zk_os_monorepo.Base.{
  Option, none, some, ℕ, ◌+◌, ◌%◌, ◌^◌, ◌<◌, ◌≡◌, List, ◌++◌, Bool, true, false, length, drop,
  replicate, ◌==◌, if◌then◌else◌, ◌≤◌,
}
use zk_os_monorepo.Base.Bytes.{to_be_bytes, to_le_bytes, from_le_bytes, from_be_bytes, IsBytes}

-- A field of halo2curves: `From<[u64; 4]>`, read as the number that the limbs stand for, and
-- `to_repr`.
pub record Field : Type 1 where
  pub Fr : Type 0
  pub from_limbs : ℕ → Fr
  pub to_repr : Fr → List ℕ

-- What the crates rely on: the representation is canonical, 32 bytes with the least first, and the
-- limbs are taken modulo a prime above 2 ^ 160 that fits in 32 bytes.
pub record IsCanonical (f : Field) (modulus : ℕ) : Type 0 where
  pub above_addresses : 2 ^ 160 ≤ modulus
  pub repr_length : (x : f.Fr) → length (f.to_repr x) ≡ 32
  pub repr_bytes : (x : f.Fr) → IsBytes (f.to_repr x)
  pub repr_value : (n : ℕ) → from_le_bytes (f.to_repr (f.from_limbs n)) ≡ n % modulus

pub data Error : Type 0 where
  incorrect_vec_length : ℕ → ℕ → Error
  halo2_field_element_creation_failed : Error
  hex_u256_parse_error : Error

pub data Result {ℓ} (A : Type ℓ) : Type ℓ where
  ok : A → Result A
  err : Error → Result A

unfoldable pub byte_vec_to_array : ℕ → List ℕ → Result (List ℕ)
byte_vec_to_array expected bytes =
    if length bytes == expected
    then ok bytes
    else err (incorrect_vec_length expected (length bytes))

unfoldable pub bytes_to_u256 : List ℕ → Result ℕ
unfolding byte_vec_to_array
bytes_to_u256 bytes = elim (byte_vec_to_array 32 bytes) [
  | ok array ↦ ok (from_le_bytes array)
  | err e ↦ err e
]

unfoldable pub u256_to_bytes : ℕ → List ℕ
u256_to_bytes value = to_le_bytes 32 value

-- `address.into_word().into()`
unfoldable pub address_to_u256 : ℕ → ℕ
address_to_u256 address = from_be_bytes (replicate 12 0 ++ to_be_bytes 20 address)

module _ (f : Field) where
  open f use {Fr, from_limbs, to_repr}

  unfoldable pub u256_to_field : ℕ → Fr
  u256_to_field value = from_limbs value

  unfoldable pub field_to_u256 : Fr → ℕ
  field_to_u256 value = from_le_bytes (to_repr value)

  -- `F::from_repr` is given.
  unfoldable pub bytes_to_field : (List ℕ → Option Fr) → List ℕ → Result Fr
  unfolding byte_vec_to_array
  bytes_to_field from_repr bytes = elim (byte_vec_to_array 32 bytes) [
    | err e ↦ err e
    | ok array ↦ elim (from_repr array) [
      | none ↦ err halo2_field_element_creation_failed
      | some field_element ↦ ok field_element
    ]
  ]

  unfoldable pub field_to_bytes : Fr → List ℕ
  field_to_bytes value = to_repr value

  unfoldable pub address_to_field : ℕ → Fr
  unfolding u256_to_field
  address_to_field address =
      u256_to_field (from_be_bytes (replicate 12 0 ++ to_be_bytes 20 address))

  unfoldable pub field_to_address : Fr → ℕ
  field_to_address address = from_be_bytes (drop 12 (reverse (to_repr address)))
