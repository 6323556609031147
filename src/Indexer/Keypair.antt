-- ===== src/Indexer/Keypair.antt =====
-- The revoker's key pair: `serialize_pub_key` and `deserialize_pub_key` of crates/ar-cli/src/common.rs,
-- and `run_inner` and `spit` of generate.rs. The two fields, the curve and the key pair of a seed
-- (shielder_circuits) are parameters.
use mathlib.Core.List.{reverse}
use zk_os_monorepo.Base.{
  ℕ, ◌≡◌, Bool, true, false, Option, none, some, List, ◌++◌, length, take, drop, ◌==◌,
  if◌then◌else◌,
}
use zk_os_monorepo.Indexer.Revoke.{Poseidon, blob_to_field}

-- `to_bytes_be` of crates/type-conversions/endianess.rs, of a representation.
unfoldable pub to_bytes_be : List ℕ → List ℕ
to_bytes_be repr = reverse repr

-- The curve over the field of the hash: the field's operations, and points, which are projective, with
-- their affine coordinates.
pub record Curve : Type 1 where
  pub p : Poseidon
  pub to_repr : p.Fr → List ℕ
  pub mul : p.Fr → p.Fr → p.Fr
  pub sub : p.Fr → p.Fr → p.Fr
  pub from : ℕ → p.Fr
  pub GrumpkinPoint : Type 0
  pub from_affine : p.Fr → p.Fr → GrumpkinPoint
  pub to_affine : GrumpkinPoint → p.Fr × p.Fr

-- What the crates rely on: the representation has 32 bytes, and an element is read back from it and
-- from nothing else; the affine coordinates of a point made of two are those.
pub record IsCanonicalCurve (c : Curve) : Type 0 where
  pub repr_length : (x : c.p.Fr) → length (c.to_repr x) ≡ 32
  pub from_to_repr : (x : c.p.Fr) → c.p.from_bytes (c.to_repr x) ≡ some x
  pub to_from_repr :
      (bytes : List ℕ) (x : c.p.Fr) → c.p.from_bytes bytes ≡ some x → c.to_repr x ≡ bytes
  pub affine : (x y : c.p.Fr) → c.to_affine (c.from_affine x y) ≡ (x, y)

pub data PubKeyError : Type 0 where
  deserialize_pub_key_error field_conversion pubkey_not_on_curve : PubKeyError

pub data KeyResult (A : Type 0) : Type 0 where
  key_ok : A → KeyResult A
  key_err : PubKeyError → KeyResult A

-- The two files of the directory, as far as they are there.
pub record KeyFiles : Type 0 where
  pub private_key : Option (List ℕ)
  pub public_key : Option (List ℕ)

-- What a write to a file does: it fails at once, after as many bytes, or not at all.
pub data Write : Type 0 where
  not_created : Write
  cut_after : ℕ → Write
  written : Write

-- `spit`: what the file holds afterwards, and whether it succeeded.
unfoldable pub spit : Write → List ℕ → Option (List ℕ) → Option (List ℕ) × Bool
spit not_created bytes file = (file, false)
spit (cut_after n) bytes file = (some (take n bytes), false)
spit written bytes file = (some bytes, true)

module _ (c : Curve) where
  open c use {p, to_repr, mul, sub, from, GrumpkinPoint, from_affine, to_affine}

  unfoldable pub serialize_pub_key : GrumpkinPoint → List ℕ
  unfolding to_bytes_be
  serialize_pub_key pubkey =
      to_bytes_be (to_repr (to_affine pubkey).0) ++ to_bytes_be (to_repr (to_affine pubkey).1)

  unfoldable pub is_on_curve : p.Fr → p.Fr → Bool
  is_on_curve x y = p.eq (mul y y) (sub (mul (mul x x) x) (from 17))

  unfoldable pub deserialize_pub_key : List ℕ → KeyResult GrumpkinPoint
  unfolding is_on_curve
  deserialize_pub_key bytes =
      if length bytes == 64
      then (elim (blob_to_field p (reverse (take 32 bytes))) [
        | none ↦ key_err field_conversion
        | some x ↦ elim (blob_to_field p (reverse (drop 32 bytes))) [
          | none ↦ key_err field_conversion
          | some y ↦
              if is_on_curve x y then key_ok (from_affine x y) else key_err pubkey_not_on_curve
        ]
      ])
      else key_err deserialize_pub_key_error

  -- `run_inner` with a directory: `keypair` is the key pair of the seed, its private key as `to_repr`.
  unfoldable pub run_inner : List ℕ → GrumpkinPoint → Write → Write → KeyFiles → KeyFiles × Bool
  unfolding serialize_pub_key to_bytes_be spit
  run_inner private_key public_key first second files =
      let private_file = spit first (to_bytes_be private_key) files.private_key in
      let public_file = spit second (serialize_pub_key public_key) files.public_key in
      if private_file.1
      then (record { private_key = private_file.0; public_key = public_file.0 }, public_file.1)
      else (record files { private_key = private_file.0 }, false)
