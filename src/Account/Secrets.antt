-- ===== src/Account/Secrets.antt =====
-- crates/shielder-account/src/secrets.rs. Keccak-256, of the crate sha3, is a parameter: a function
-- from bytes to bytes.
use zk_os_monorepo.Base.{ℕ, ◌%◌, List, [], ◌∷◌, ◌++◌}
use zk_os_monorepo.Base.Bytes.{to_be_bytes, from_be_bytes}

pub data Label : Type 0 where
  nullifier id : Label

unfoldable pub as_bytes : Label → List ℕ
as_bytes nullifier = b'n' ∷ b'u' ∷ b'l' ∷ b'l' ∷ b'i' ∷ b'f' ∷ b'i' ∷ b'e' ∷ b'r' ∷ []
as_bytes id = b'i' ∷ b'd' ∷ []

-- The four limbs of the constant, most significant first.
abbrev pub field_modulus : ℕ
field_modulus = 0x30644e72e131a029b85045b68181585d2833e84879b9709143e1f593f0000001

-- The bytes that the two derivations feed to the hasher.
unfoldable pub nullifier_preimage : ℕ → ℕ → List ℕ
unfolding as_bytes
nullifier_preimage account_id nonce =
    to_be_bytes 32 account_id ++ (as_bytes nullifier ++ to_be_bytes 4 nonce)

unfoldable pub id_preimage : ℕ → ℕ → ℕ → List ℕ
unfolding as_bytes
id_preimage private_key chain_id account_nonce =
    to_be_bytes 32 private_key
    ++ (as_bytes id ++ (to_be_bytes 8 chain_id ++ to_be_bytes 4 account_nonce))

module _ (keccak : List ℕ → List ℕ) where
  unfoldable pub finalize_hash : List ℕ → ℕ
  finalize_hash bytes = from_be_bytes (keccak bytes) % field_modulus

  unfoldable pub derive_nullifier : ℕ → ℕ → ℕ
  unfolding finalize_hash
  derive_nullifier account_id nonce = finalize_hash (nullifier_preimage account_id nonce)

  unfoldable pub derive_id : ℕ → ℕ → ℕ → ℕ
  unfolding finalize_hash
  derive_id private_key chain_id account_nonce =
      finalize_hash (id_preimage private_key chain_id account_nonce)
