-- ===== src/Tests/Revoker.antt =====
-- The revoker's commands: one that is refused twice, and a key pair on the curve over the field of two
-- elements, whose points are (0, 1) and (1, 0).
use mathlib.Core.List.{reverse}
use zk_os_monorepo.Base.{
  ◌&&◌, sym, ap, ◌∙◌, zero, suc, ◌++◌, inr, inl, Bool-cases, not, ◌<◌, ℕ, ◌+◌, ◌%◌, ◌≡◌, ◌↔◌, refl,
  Bool, true, false, Option, none, some, List, [], ◌∷◌, length, replicate, ltb, ◌==◌, if◌then◌else◌,
  arith,
}
use zk_os_monorepo.Base.Bytes.{eq_of_bytes_eq, bytes_eq}
use zk_os_monorepo.Indexer.Collect.{private_key_bytes}
use zk_os_monorepo.Indexer.Revoke.{Poseidon}
use zk_os_monorepo.Indexer.Keypair.{
  is_on_curve, Curve, IsCanonicalCurve, key_ok, deserialize_pub_key, KeyFiles, written, run_inner,
}
use zk_os_monorepo.Indexer.Generated.{IsSerializationOf, deserialize_pub_key_iff, run_inner_lem}
use zk_os_monorepo.Indexer.Retry.{
  after, Attempt, succeeded, rate_limited, returned, retry_with_backoff, retry_with_backoff_lem,
}

-- The third run succeeds.
abbrev op : ℕ → ℕ × Attempt ℕ ℕ
op s = if ltb s 2 then (s + 1, rate_limited) else (s + 1, succeeded 7)

busy : (i : ℕ) → i < 2 → (op (after op i 0)).1 ≡ rate_limited
busy zero lt = refl
busy (suc zero) lt = refl
busy (suc (suc i)) lt = absurd (omega (arith, lt))

retry_with_backoff_lem_example :
    retry_with_backoff op 5 0
    ≡ some (record { state = 3; slept = 4000 ∷ 8000 ∷ []; ended = returned 7 })
retry_with_backoff_lem_example =
    retry_with_backoff_lem op 2 5 0 (returned 7) (omega arith) busy refl

abbrev repr : Bool → List ℕ
repr false = replicate 32 0
repr true = 1 ∷ replicate 31 0

abbrev read_repr : List ℕ → Option Bool
read_repr bytes =
    if bytes_eq bytes (repr false)
    then some false
    else if bytes_eq bytes (repr true)
    then some true
    else none

abbrev xor : Bool → Bool → Bool
xor true b = not b
xor false b = b

abbrev poseidon : Poseidon
poseidon = record {
  Fr = Bool;
  eq = λ x y. not (xor x y);
  from_bytes = read_repr;
  hash = λ xs. false;
}

abbrev curve : Curve
curve = record {
  p = poseidon;
  to_repr = repr;
  mul = λ x y. x && y;
  sub = xor;
  from = λ n. n % 2 == 1;
  GrumpkinPoint = Bool × Bool;
  from_affine = λ x y. (x, y);
  to_affine = λ p. p;
}

length-repr : (x : Bool) → length (repr x) ≡ 32
length-repr false = refl
length-repr true = refl

read_repr-repr : (x : Bool) → read_repr (repr x) ≡ some x
unfolding bytes_eq
read_repr-repr false = refl
read_repr-repr true = refl

abbrev repr_of : Option Bool → List ℕ
repr_of none = []
repr_of (some x) = repr x

repr-read_repr : (bytes : List ℕ) (x : Bool) → read_repr bytes ≡ some x → repr x ≡ bytes
repr-read_repr bytes x h = elim (Bool-cases (bytes_eq bytes (repr false))) [
  | inl zeros ↦
      ap repr_of {y = some false} (sym h ∙ rw zeros refl)
      ∙ sym (eq_of_bytes_eq bytes (repr false) zeros)
  | inr other ↦ elim (Bool-cases (bytes_eq bytes (repr true))) [
    | inl one ↦
        ap repr_of {y = some true} (sym h ∙ rw (other, one) refl)
        ∙ sym (eq_of_bytes_eq bytes (repr true) one)
    | inr neither ↦ absurd (ground (arith, other, neither, h))
  ]
]

curve-IsCanonicalCurve : IsCanonicalCurve curve
curve-IsCanonicalCurve = record {
  repr_length = length-repr;
  from_to_repr = read_repr-repr;
  to_from_repr = repr-read_repr;
  affine = λ x y. refl;
}

-- The files that the generation leaves when nothing fails.
abbrev key_files : KeyFiles × Bool
key_files =
    run_inner curve (7 ∷ replicate 31 0) (true, false) written written
      (record { private_key = none; public_key = none })

run_inner_lem_example :
    (key_files.1 ≡ true)
    × ((content : List ℕ) × (private_key_bytes key_files.0.private_key ≡ some content)
        × (reverse content ≡ 7 ∷ replicate 31 0))
    × ((content : List ℕ) × (key_files.0.public_key ≡ some content)
        × (deserialize_pub_key curve content ≡ key_ok (true, false)))
unfolding is_on_curve
run_inner_lem_example =
    run_inner_lem curve curve-IsCanonicalCurve (7 ∷ replicate 31 0) (true, false) written written
      (record { private_key = none; public_key = none }) refl refl

deserialize_pub_key_iff_example :
    (deserialize_pub_key curve (replicate 31 0 ++ 1 ∷ replicate 32 0) ≡ key_ok (true, false))
    ↔ IsSerializationOf curve curve-IsCanonicalCurve
        (replicate 31 0 ++ 1 ∷ replicate 32 0)
        (true, false)
deserialize_pub_key_iff_example =
    deserialize_pub_key_iff curve curve-IsCanonicalCurve (replicate 31 0 ++ 1 ∷ replicate 32 0)
      (true, false)
