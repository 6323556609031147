-- ===== src/Account/Preimages.antt =====
-- The hasher's inputs in crates/shielder-account/src/secrets.rs tell the derivations apart.
use zk_os_monorepo.Base.{
  ℕ, ◌^◌, ◌<◌, ◌≡◌, ◌≢◌, refl, ap, ◌++◌, length, length-append, append_injective, arith,
}
use zk_os_monorepo.Base.Bytes.{to_be_bytes, length-to_be_bytes, to_be_bytes_injective}
use zk_os_monorepo.Account.Secrets.{nullifier, id, as_bytes, nullifier_preimage, id_preimage}

-- Two nullifier derivations hash the same bytes only for the same id and the same nonce, where ids
-- are below 2 ^ 256 and nonces below 2 ^ 32.
pub nullifier_preimage_injective :
    (id₁ id₂ nonce₁ nonce₂ : ℕ)
    → id₁ < 2 ^ 256
    → id₂ < 2 ^ 256
    → nonce₁ < 2 ^ 32
    → nonce₂ < 2 ^ 32
    → nullifier_preimage id₁ nonce₁ ≡ nullifier_preimage id₂ nonce₂
    → (id₁ ≡ id₂) × (nonce₁ ≡ nonce₂)
unfolding nullifier_preimage
nullifier_preimage_injective id₁ id₂ nonce₁ nonce₂ hi₁ hi₂ hn₁ hn₂ e =
    let outer =
      append_injective (to_be_bytes 32 id₁) _ (to_be_bytes 32 id₂) _ 32 (length-to_be_bytes 32 id₁)
        (length-to_be_bytes 32 id₂) e in
    let inner =
      append_injective (as_bytes nullifier) _ (as_bytes nullifier) _ 9 refl refl outer.1 in
    (
      to_be_bytes_injective 32 id₁ id₂ (omega arith) (omega arith) outer.0,
      to_be_bytes_injective 4 nonce₁ nonce₂ (omega arith) (omega arith) inner.1,
    )

length-nullifier_preimage : (n nonce : ℕ) → length (nullifier_preimage n nonce) ≡ 45
unfolding nullifier_preimage
length-nullifier_preimage n nonce = omega (
  arith,
  length-append (to_be_bytes 32 n) (as_bytes nullifier ++ to_be_bytes 4 nonce),
  length-to_be_bytes 32 n,
  length-to_be_bytes 4 nonce,
)

length-id_preimage : (key chain nonce : ℕ) → length (id_preimage key chain nonce) ≡ 46
unfolding id_preimage
length-id_preimage key chain nonce = omega (
  arith,
  length-append (to_be_bytes 32 key) (as_bytes id ++ (to_be_bytes 8 chain ++ to_be_bytes 4 nonce)),
  length-append (to_be_bytes 8 chain) (to_be_bytes 4 nonce),
  length-to_be_bytes 32 key,
  length-to_be_bytes 8 chain,
  length-to_be_bytes 4 nonce,
)

-- No input of a nullifier derivation is an input of an id derivation, whatever the arguments.
pub nullifier_preimage-ne-id_preimage :
    (account_id nonce private_key chain_id account_nonce : ℕ)
    → nullifier_preimage account_id nonce ≢ id_preimage private_key chain_id account_nonce
nullifier_preimage-ne-id_preimage account_id nonce private_key chain_id account_nonce e = omega (
  arith,
  ap length e,
  length-nullifier_preimage account_id nonce,
  length-id_preimage private_key chain_id account_nonce,
)
