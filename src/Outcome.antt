-- ===== src/Outcome.antt =====
-- Results of Rust functions: a value, an error, or a panic of the task.
use zk_os_monorepo.Base.{◌≡◌, ◌⊎◌, inl, inr, refl, Option, none, some, Bool, true, false, arith}

pub data Outcome {ℓ} (E : Type 0) (A : Type ℓ) : Type ℓ where
  ok : A → Outcome E A
  err : E → Outcome E A
  panic : Outcome E A

module _ {E : Type 0} where
  infixl 5 ◌>>=◌ ◌>>◌
  abbrev pub ◌>>=◌ {ℓ κ} : {A : Type ℓ} {B : Type κ} → Outcome E A → (A → Outcome E B) → Outcome E B
  ok a >>= f = f a
  err e >>= f = err e
  panic >>= f = panic

  abbrev pub ◌>>◌ {ℓ} : {B : Type ℓ} → Outcome E (Unit {0}) → Outcome E B → Outcome E B
  m >> k = m >>= λ _. k

  -- `.ok_or(e)?`
  abbrev pub ok_or {ℓ} : {A : Type ℓ} → Option A → E → Outcome E A
  ok_or none e = err e
  ok_or (some a) e = ok a

  -- A value that the code computes by an operation that may panic.
  abbrev pub or_panic {ℓ} : {A : Type ℓ} → Option A → Outcome E A
  or_panic none = panic
  or_panic (some a) = ok a

  abbrev pub guard : Bool → E → Outcome E (Unit {0})
  guard true e = ok tt
  guard false e = err e

  -- To split on a computed outcome and keep the equation.
  pub Outcome-cases {ℓ} :
      {A : Type ℓ} (o : Outcome E A)
      → ((a : A) × (o ≡ ok a)) ⊎ (((e : E) × (o ≡ err e)) ⊎ (o ≡ panic))
  Outcome-cases (ok a) = inl (a, refl)
  Outcome-cases (err e) = inr (inl (e, refl))
  Outcome-cases panic = inr (inr refl)

  -- What holds of the value of an outcome, if it has one.
  abbrev pub AllOk {ℓ} : {A : Type ℓ} → (A → Type 0) → Outcome E A → Type 0
  AllOk P (ok a) = P a
  AllOk P (err e) = Unit {0}
  AllOk P panic = Unit {0}

  pub AllOk-bind {ℓ κ} :
      {A : Type ℓ} {B : Type κ} (P : B → Type 0) (m : Outcome E A) (k : A → Outcome E B)
      → ((a : A) → m ≡ ok a → AllOk P (k a))
      → AllOk P (m >>= k)
  AllOk-bind P (ok a) k h = h a refl
  AllOk-bind P (err e) k h = tt
  AllOk-bind P panic k h = tt

  pub AllOk-intro {ℓ} :
      {A : Type ℓ} (P : A → Type 0) (m : Outcome E A) → ((a : A) → m ≡ ok a → P a) → AllOk P m
  AllOk-intro P (ok a) h = h a refl
  AllOk-intro P (err e) h = tt
  AllOk-intro P panic h = tt

  pub AllOk-elim {ℓ} :
      {A : Type ℓ} (P : A → Type 0) (m : Outcome E A) (a : A) → AllOk P m → m ≡ ok a → P a
  AllOk-elim P m a h e = rw e at h

  pub or_panic-ok {ℓ} : {A : Type ℓ} (o : Option A) (a : A) → or_panic o ≡ ok a → o ≡ some a
  or_panic-ok none a h = absurd (ground (arith, h))
  or_panic-ok (some b) a h = ground (arith, h)

  pub ok_or-ok {ℓ} : {A : Type ℓ} (o : Option A) (e : E) (a : A) → ok_or o e ≡ ok a → o ≡ some a
  ok_or-ok none e a h = absurd (ground (arith, h))
  ok_or-ok (some b) e a h = ground (arith, h)
