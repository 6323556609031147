-- ===== src/Indexer/Generated.antt =====
-- The files of the revoker's keys: what the generation writes is what the other commands read.
use mathlib.Core.Path.{subst}
use mathlib.Core.List.{reverse, reverse-reverse}
use zk_os_monorepo.Base.{
  ℕ, ◌≡◌, refl, sym, ap, ◌∙◌, ◌↔◌, Bool, true, false, Option, none, some, List, length,
  length-append, length-reverse, take, drop, take-append, drop-append, take-append-drop, ◌==◌,
  if◌then◌else◌, arith, Bool-cases, inl, inr,
}
use zk_os_monorepo.Indexer.Collect.{private_key_bytes}
use zk_os_monorepo.Indexer.Revoke.{blob_to_field}
use zk_os_monorepo.Indexer.Keypair.{
  cut_after, not_created, pubkey_not_on_curve, PubKeyError, deserialize_pub_key_error, Curve,
  IsCanonicalCurve, key_ok, key_err, to_bytes_be, serialize_pub_key, is_on_curve,
  deserialize_pub_key, KeyFiles, Write, written, spit, run_inner,
}

equal_of_test : (m n : ℕ) → (m == n) ≡ true → m ≡ n
equal_of_test m n h = ground (arith, h)

both_passed :
    {A : Type 0} (first second : Bool) (a b : A) (e e' : PubKeyError)
    → (if first then (if second then key_ok a else key_err e') else key_err e) ≡ key_ok b
    → (first ≡ true) × (second ≡ true) × (a ≡ b)
both_passed first second a b e e' h = ground (arith, h)

module _ (c : Curve) (canonical : IsCanonicalCurve c) where
  open c use {p, to_repr, GrumpkinPoint, from_affine, to_affine}
  open canonical use {repr_length, from_to_repr, to_from_repr, affine}

  big_endian_length : (x : p.Fr) → length (reverse (to_repr x)) ≡ 32
  big_endian_length x = length-reverse (to_repr x) ∙ repr_length x

  blob_to_field-to_repr : (x : p.Fr) → blob_to_field p (to_repr x) ≡ some x
  unfolding blob_to_field
  blob_to_field-to_repr x = rw (repr_length x) (from_to_repr x)

  to_repr-blob_to_field :
      (blob : List ℕ) (x : p.Fr) → blob_to_field p blob ≡ some x → to_repr x ≡ blob
  unfolding blob_to_field
  to_repr-blob_to_field blob x h = elim (Bool-cases (length blob == 32)) [
    | inl fits ↦ to_from_repr blob x (ground (arith, fits, h))
    | inr other ↦ absurd (ground (arith, other, h))
  ]

  length-serialize_pub_key : (pubkey : GrumpkinPoint) → length (serialize_pub_key c pubkey) ≡ 64
  unfolding serialize_pub_key to_bytes_be
  length-serialize_pub_key pubkey =
      let (x, y) = to_affine pubkey in
      omega (
        arith,
        length-append (reverse (to_repr (to_affine pubkey).0))
            (reverse (to_repr (to_affine pubkey).1)),
        big_endian_length (to_affine pubkey).0,
        big_endian_length (to_affine pubkey).1,
      )

  first_half :
      (pubkey : GrumpkinPoint)
      → blob_to_field p (reverse (take 32 (serialize_pub_key c pubkey))) ≡ some (to_affine pubkey).0
  unfolding serialize_pub_key to_bytes_be
  first_half pubkey =
      ap (λ r. blob_to_field p (reverse r)) (take-append _ _ 32 (big_endian_length _))
      ∙ ap (blob_to_field p) (reverse-reverse _)
      ∙ blob_to_field-to_repr _

  second_half :
      (pubkey : GrumpkinPoint)
      → blob_to_field p (reverse (drop 32 (serialize_pub_key c pubkey))) ≡ some (to_affine pubkey).1
  unfolding serialize_pub_key to_bytes_be
  second_half pubkey =
      ap (λ r. blob_to_field p (reverse r)) (drop-append _ _ 32 (big_endian_length _))
      ∙ ap (blob_to_field p) (reverse-reverse _)
      ∙ blob_to_field-to_repr _

  pub deserialize_pub_key-serialize_pub_key :
      (pubkey : GrumpkinPoint)
      → is_on_curve c (to_affine pubkey).0 (to_affine pubkey).1 ≡ true
      → deserialize_pub_key c (serialize_pub_key c pubkey)
        ≡ key_ok (from_affine (to_affine pubkey).0 (to_affine pubkey).1)
  unfolding deserialize_pub_key
  deserialize_pub_key-serialize_pub_key pubkey on =
      rw (length-serialize_pub_key pubkey, first_half pubkey, second_half pubkey, on) refl

  -- What is read of 64 bytes, by what is read of its halves.
  IsReadAs : List ℕ → GrumpkinPoint → Option p.Fr → Option p.Fr → Type 0
  IsReadAs bytes pubkey (some x) (some y) =
      (length bytes ≡ 64) × (is_on_curve c x y ≡ true) × (from_affine x y ≡ pubkey)
  IsReadAs bytes pubkey (some x) none = ⊥
  IsReadAs bytes pubkey none y = ⊥

  read_halves :
      (bytes : List ℕ) (pubkey : GrumpkinPoint) (x y : Option p.Fr)
      → blob_to_field p (reverse (take 32 bytes)) ≡ x
      → blob_to_field p (reverse (drop 32 bytes)) ≡ y
      → deserialize_pub_key c bytes ≡ key_ok pubkey
      → IsReadAs bytes pubkey x y
  unfolding deserialize_pub_key IsReadAs
  read_halves bytes pubkey (some x) (some y) ex ey h =
      let read = sym (rw (deserialize_pub_key, ex, ey) refl) ∙ h in
      let (fits, on, same) =
        both_passed (length bytes == 64) (is_on_curve c x y) (from_affine x y) pubkey
          deserialize_pub_key_error pubkey_not_on_curve read in
      (equal_of_test (length bytes) 64 fits, on, same)
  read_halves bytes pubkey (some x) none ex ey h = ground (arith, ex, ey, h)
  read_halves bytes pubkey none y ex ey h = ground (arith, ex, h)

  serialize_pub_key-from_affine :
      (bytes : List ℕ) (x y : p.Fr)
      → to_repr x ≡ reverse (take 32 bytes)
      → to_repr y ≡ reverse (drop 32 bytes)
      → serialize_pub_key c (from_affine x y) ≡ bytes
  unfolding serialize_pub_key to_bytes_be
  serialize_pub_key-from_affine bytes x y ex ey =
      rw (affine x y, ex, ey, reverse-reverse (take 32 bytes), reverse-reverse (drop 32 bytes))
        (take-append-drop 32 bytes)

  -- The test for equality says that y * y = x * x * x - 17.
  abbrev pub SatisfiesEquation : p.Fr → p.Fr → Type 0
  SatisfiesEquation x y = p.eq (c.mul y y) (c.sub (c.mul (c.mul x x) x) (c.from 17)) ≡ true

  abbrev pub IsSerializationOf : List ℕ → GrumpkinPoint → Type 0
  IsSerializationOf bytes pubkey =
      (serialize_pub_key c pubkey ≡ bytes)
      × SatisfiesEquation (to_affine pubkey).0 (to_affine pubkey).1
      × (from_affine (to_affine pubkey).0 (to_affine pubkey).1 ≡ pubkey)

  serialization_of :
      (bytes : List ℕ) (pubkey : GrumpkinPoint) (x y : Option p.Fr)
      → blob_to_field p (reverse (take 32 bytes)) ≡ x
      → blob_to_field p (reverse (drop 32 bytes)) ≡ y
      → deserialize_pub_key c bytes ≡ key_ok pubkey
      → IsSerializationOf bytes pubkey
  unfolding IsReadAs is_on_curve
  serialization_of bytes pubkey (some x) (some y) ex ey h =
      let (fits, on, made) = read_halves bytes pubkey (some x) (some y) ex ey h in
      subst (IsSerializationOf bytes) made (
        serialize_pub_key-from_affine bytes x y (to_repr-blob_to_field _ x ex)
            (to_repr-blob_to_field _ y ey),
        rw (affine x y) on,
        rw (affine x y) refl,
      )
  serialization_of bytes pubkey (some x) none ex ey h =
      absurd (read_halves bytes pubkey (some x) none ex ey h)
  serialization_of bytes pubkey none y ex ey h = absurd (read_halves bytes pubkey none y ex ey h)

  -- What the generation shall leave behind and report, by what its two writes do.
  abbrev pub IsGenerated :
      List ℕ → GrumpkinPoint → KeyFiles → Write → Write → KeyFiles × Bool → Type 0
  IsGenerated private_key public_key files written written (after, ok) =
      (ok ≡ true)
      × ((content : List ℕ) × (private_key_bytes after.private_key ≡ some content)
          × (reverse content ≡ private_key))
      × ((content : List ℕ) × (after.public_key ≡ some content)
          × (deserialize_pub_key c content
              ≡ key_ok (from_affine (to_affine public_key).0 (to_affine public_key).1)))
  IsGenerated private_key public_key files written not_created (after, ok) = ok ≡ false
  IsGenerated private_key public_key files written (cut_after n) (after, ok) = ok ≡ false
  IsGenerated private_key public_key files not_created second (after, ok) =
      (ok ≡ false) × (after.public_key ≡ files.public_key)
  IsGenerated private_key public_key files (cut_after n) second (after, ok) =
      (ok ≡ false) × (after.public_key ≡ files.public_key)

  -- 64 bytes are read as a public key exactly if they are the serialization of that key, its affine
  -- coordinates satisfy the equation y * y = x * x * x - 17, and it is the point that is made of them; any other bytes
  -- are refused.
  pub deserialize_pub_key_iff :
      (bytes : List ℕ) (pubkey : GrumpkinPoint)
      → (deserialize_pub_key c bytes ≡ key_ok pubkey) ↔ IsSerializationOf bytes pubkey
  unfolding is_on_curve
  deserialize_pub_key_iff bytes pubkey = (
    serialization_of bytes pubkey (blob_to_field p (reverse (take 32 bytes)))
        (blob_to_field p (reverse (drop 32 bytes))) refl refl,
    λ (same, on, made).
        ap (deserialize_pub_key c) (sym same)
        ∙ deserialize_pub_key-serialize_pub_key pubkey on
        ∙ ap key_ok made,
  )

  -- If both writes succeed, the generation succeeds, the file of the private key is one that the
  -- collection of keys accepts and whose bytes it reads as the representation of the private key, and
  -- the file of the public key, which is on the curve, is read as that key with its affine
  -- coordinates; if a write fails, the generation fails, and a private key that could not be written
  -- leaves the file of the public key as it was.
  pub run_inner_lem :
      (private_key : List ℕ) (public_key : GrumpkinPoint) (first second : Write) (files : KeyFiles)
      → length private_key ≡ 32
      → is_on_curve c (to_affine public_key).0 (to_affine public_key).1 ≡ true
      → IsGenerated private_key public_key files first second
          (run_inner c private_key public_key first second files)
  unfolding run_inner spit to_bytes_be private_key_bytes
  run_inner_lem private_key public_key written written files fits on = (
    refl,
    (reverse private_key, rw (length-reverse private_key, fits) refl, reverse-reverse private_key),
    (serialize_pub_key c public_key, refl, deserialize_pub_key-serialize_pub_key public_key on),
  )
  run_inner_lem private_key public_key written not_created files fits on = refl
  run_inner_lem private_key public_key written (cut_after n) files fits on = refl
  run_inner_lem private_key public_key not_created second files fits on = (refl, refl)
  run_inner_lem private_key public_key (cut_after n) second files fits on = (refl, refl)
