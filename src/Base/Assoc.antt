-- ===== src/Base/Assoc.antt =====
-- A hash map as an association list. Keys are compared by a test that need not be equality of
-- values (two decimals are equal as numbers), so the laws are those of an equivalence.
use zk_os_monorepo.Base.{
  ℕ, ◌==◌, ◌≡◌, refl, Bool, true, Option, none, some, List, [], ◌∷◌, arith, if◌then◌else◌,
}

pub record Key {ℓ} (K : Type ℓ) : Type ℓ where
  pub beq : K → K → Bool
  pub beq_refl : (k : K) → beq k k ≡ true
  pub beq_sym : (j k : K) → beq j k ≡ true → beq k j ≡ true
  pub beq_trans : (i j k : K) → beq i j ≡ true → beq j k ≡ true → beq i k ≡ true

pub equal_refl : (k : ℕ) → (k == k) ≡ true
equal_refl k = ground arith

pub equal_sym : (j k : ℕ) → (j == k) ≡ true → (k == j) ≡ true
equal_sym j k h = ground arith

pub equal_trans : (i j k : ℕ) → (i == j) ≡ true → (j == k) ≡ true → (i == k) ≡ true
equal_trans i j k h g = ground arith

-- Numbers as keys.
abbrev pub number_key : Key ℕ
number_key = record {
  beq = λ j k. j == k;
  beq_refl = equal_refl;
  beq_sym = equal_sym;
  beq_trans = equal_trans;
}

module _ {ℓ κ} {K : Type ℓ} {V : Type κ} (key : Key K) where
  open key use {beq, beq_sym, beq_trans}

  unfoldable pub lookup : K → List (K × V) → Option V
  lookup k [] = none
  lookup k ((j, v) ∷ m) = if beq j k then some v else lookup k m

  -- `entry(k).and_modify(modify).or_insert(v)`
  unfoldable pub upsert : K → (V → V) → V → List (K × V) → List (K × V)
  upsert k modify v [] = (k, v) ∷ []
  upsert k modify v ((j, w) ∷ m) =
      if beq j k then (j, modify w) ∷ m else (j, w) ∷ upsert k modify v m

  -- `retain` by a test on the value.
  unfoldable pub retain : (V → Bool) → List (K × V) → List (K × V)
  retain keep [] = []
  retain keep ((j, v) ∷ m) = let rest = retain keep m in if keep v then (j, v) ∷ rest else rest

  -- No key stands twice.
  abbrev pub HasUniqueKeys : List (K × V) → Type κ
  HasUniqueKeys [] = Unit
  HasUniqueKeys ((j, v) ∷ m) = (lookup j m ≡ none) × HasUniqueKeys m

  abbrev pub modified : (V → V) → V → Option V → V
  modified modify v none = v
  modified modify v (some w) = modify w

  pub lookup-congruent : (i j : K) (m : List (K × V)) → beq i j ≡ true → lookup i m ≡ lookup j m
  unfolding lookup
  lookup-congruent i j [] e = refl
  lookup-congruent i j ((k, v) ∷ m) e =
      ground (arith, lookup-congruent i j m e, beq_trans k i j, beq_trans k j i, beq_sym i j e)

  pub lookup-upsert :
      (k j : K) (modify : V → V) (v : V) (m : List (K × V))
      → lookup j (upsert k modify v m)
        ≡ (if beq k j then some (modified modify v (lookup k m)) else lookup j m)
  unfolding lookup upsert
  lookup-upsert k j modify v [] = refl
  lookup-upsert k j modify v ((i, w) ∷ m) = ground (
    arith,
    lookup-upsert k j modify v m,
    beq_sym i k,
    beq_trans i k j,
    beq_trans k i j,
    beq_sym k j,
    beq_trans i j k,
  )

  pub upsert-HasUniqueKeys :
      (k : K) (modify : V → V) (v : V) (m : List (K × V))
      → HasUniqueKeys m
      → HasUniqueKeys (upsert k modify v m)
  unfolding upsert
  upsert-HasUniqueKeys k modify v [] u = (unfold lookup in refl, tt)
  upsert-HasUniqueKeys k modify v ((i, w) ∷ m) u =
      ground
        (arith, upsert-HasUniqueKeys k modify v m u.1, lookup-upsert k i modify v m, beq_sym k i)

  abbrev pub kept : (V → Bool) → Option V → Option V
  kept keep none = none
  kept keep (some v) = if keep v then some v else none

  pub lookup-retain :
      (keep : V → Bool) (k : K) (m : List (K × V))
      → HasUniqueKeys m
      → lookup k (retain keep m) ≡ kept keep (lookup k m)
  unfolding lookup retain
  lookup-retain keep k [] u = refl
  lookup-retain keep k ((i, w) ∷ m) u =
      ground (arith, lookup-retain keep k m u.1, lookup-congruent i k m)

  pub retain-HasUniqueKeys :
      (keep : V → Bool) (m : List (K × V)) → HasUniqueKeys m → HasUniqueKeys (retain keep m)
  unfolding retain
  retain-HasUniqueKeys keep [] u = tt
  retain-HasUniqueKeys keep ((i, w) ∷ m) u =
      ground (arith, retain-HasUniqueKeys keep m u.1, lookup-retain keep i m u.1)
