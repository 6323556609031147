-- ===== src/Conversions/Roundtrip.antt =====
-- The conversions of crates/type-conversions/lib.rs are inverse to one another where they can be.
use native.Mathlib.Nat.{mod-eq_of_lt}
use zk_os_monorepo.Base.{ℕ, ◌%◌, ◌^◌, ◌<◌, ◌≡◌, refl, ap, ◌∙◌, List, replicate, arith}
use zk_os_monorepo.Base.Bytes.{
  to_be_bytes, from_le_bytes, from_be_bytes-zeros, from_be_bytes-to_be_bytes,
  from_be_bytes-drop-reverse, from_le_bytes-take, length-to_le_bytes, from_le_bytes-to_le_bytes,
}
use zk_os_monorepo.Conversions.{
  Field, IsCanonical, ok, bytes_to_u256, u256_to_bytes, address_to_u256, u256_to_field,
  field_to_u256, address_to_field, field_to_address,
}

-- A number below 2 ^ 256 is what its 32 bytes decode to.
pub bytes_to_u256-u256_to_bytes :
    (value : ℕ) → value < 2 ^ 256 → bytes_to_u256 (u256_to_bytes value) ≡ ok value
unfolding bytes_to_u256 u256_to_bytes
bytes_to_u256-u256_to_bytes value h =
    ground (arith, length-to_le_bytes 32 value, from_le_bytes-to_le_bytes 32 value h)

-- As a number, an address is itself.
pub address_to_u256_lem : (address : ℕ) → address < 2 ^ 160 → address_to_u256 address ≡ address
unfolding address_to_u256 from_le_bytes
address_to_u256_lem address h =
    from_be_bytes-zeros (replicate 12 0) (to_be_bytes 20 address) refl
    ∙ from_be_bytes-to_be_bytes 20 address h

module _ (f : Field) {modulus : ℕ} (c : IsCanonical f modulus) where
  -- A number below the modulus survives the way through the field.
  pub field_to_u256-u256_to_field :
      (value : ℕ) → value < modulus → field_to_u256 f (u256_to_field f value) ≡ value
  unfolding field_to_u256 u256_to_field
  field_to_u256-u256_to_field value h = c.repr_value value ∙ mod-eq_of_lt h

  -- An address survives the way through the field.
  pub field_to_address-address_to_field :
      (address : ℕ) → address < 2 ^ 160 → field_to_address f (address_to_field f address) ≡ address
  unfolding field_to_address address_to_field address_to_u256
  field_to_address-address_to_field address h =
      from_be_bytes-drop-reverse 12 20 repr (c.repr_length element)
      ∙ from_le_bytes-take 20 repr (c.repr_bytes element) (omega (arith, whole))
      ∙ whole
    where
      element : f.Fr
      element = address_to_field f address

      repr : List ℕ
      repr = f.to_repr element

      whole : from_le_bytes repr ≡ address
      whole =
          c.repr_value (address_to_u256 address)
          ∙ ap (λ n. n % modulus) (address_to_u256_lem address h)
          ∙ mod-eq_of_lt (omega (arith, c.above_addresses))
