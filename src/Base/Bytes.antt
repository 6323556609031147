-- ===== src/Base/Bytes.antt =====
-- Fixed-width encodings of numbers as bytes, little- and big-endian.
use mathlib.Core.List.{reverse, reverse-reverse, reverse-append}
use native.Mathlib.Nat.{pow-suc}
use zk_os_monorepo.Base.{
  ◌&&◌, ◌==◌, false, Bool, true, ℕ, zero, suc, ◌+◌, ◌*◌, ◌/◌, ◌%◌, ◌^◌, ◌<◌, ◌≡◌, refl, ap, sym,
  ◌∙◌, List, [], ◌∷◌, ◌++◌, length, length-drop, length-reverse, take, drop, take-append-drop,
  drop-append, arith,
}

unfoldable pub to_le_bytes : ℕ → ℕ → List ℕ
to_le_bytes zero x = []
to_le_bytes (suc n) x = (x % 256) ∷ to_le_bytes n (x / 256)

unfoldable pub from_le_bytes : List ℕ → ℕ
from_le_bytes [] = 0
from_le_bytes (b ∷ bs) = b + 256 * from_le_bytes bs

unfoldable pub to_be_bytes : ℕ → ℕ → List ℕ
unfolding to_le_bytes
to_be_bytes n x = reverse (to_le_bytes n x)

unfoldable pub from_be_bytes : List ℕ → ℕ
unfolding from_le_bytes
from_be_bytes bs = from_le_bytes (reverse bs)

pub length-to_le_bytes : (n x : ℕ) → length (to_le_bytes n x) ≡ n
unfolding to_le_bytes
length-to_le_bytes zero x = refl
length-to_le_bytes (suc n) x = ap suc (length-to_le_bytes n (x / 256))

pub from_le_bytes-to_le_bytes : (n x : ℕ) → x < 256 ^ n → from_le_bytes (to_le_bytes n x) ≡ x
unfolding to_le_bytes from_le_bytes
from_le_bytes-to_le_bytes zero x h = omega arith
from_le_bytes-to_le_bytes (suc n) x h =
    let room : x < 256 ^ n * 256 = rw pow-suc at h in
    omega (arith, from_le_bytes-to_le_bytes n (x / 256) (omega arith))

pub from_be_bytes-to_be_bytes : (n x : ℕ) → x < 256 ^ n → from_be_bytes (to_be_bytes n x) ≡ x
unfolding from_be_bytes to_be_bytes
from_be_bytes-to_be_bytes n x h = rw reverse-reverse (from_le_bytes-to_le_bytes n x h)

abbrev pub IsBytes : List ℕ → Type 0
IsBytes [] = Unit {0}
IsBytes (b ∷ bs) = (b < 256) × IsBytes bs

pub to_le_bytes-IsBytes : (n x : ℕ) → IsBytes (to_le_bytes n x)
unfolding to_le_bytes
to_le_bytes-IsBytes zero x = tt
to_le_bytes-IsBytes (suc n) x = (omega arith, to_le_bytes-IsBytes n (x / 256))

-- The first `n` bytes are the value modulo 256 ^ n, here for a value that fits in them.
pub from_le_bytes-take :
    (n : ℕ) (bs : List ℕ)
    → IsBytes bs
    → from_le_bytes bs < 256 ^ n
    → from_le_bytes (take n bs) ≡ from_le_bytes bs
unfolding from_le_bytes
from_le_bytes-take zero bs h fits = omega arith
from_le_bytes-take (suc n) [] h fits = refl
from_le_bytes-take (suc n) (b ∷ bs) h fits =
    let room : b + 256 * from_le_bytes bs < 256 ^ n * 256 = rw pow-suc at fits in
    omega (arith, from_le_bytes-take n bs h.1 (omega arith))

-- The last bytes of the big-endian form are the first of the little-endian form.
pub from_be_bytes-drop-reverse :
    (skip keep : ℕ) (bs : List ℕ)
    → length bs ≡ skip + keep
    → from_be_bytes (drop skip (reverse bs)) ≡ from_le_bytes (take keep bs)
unfolding from_be_bytes
from_be_bytes-drop-reverse skip keep bs h =
    ap (λ r. from_le_bytes (reverse (drop skip (reverse r)))) (sym (take-append-drop keep bs))
    ∙ ap (λ r. from_le_bytes (reverse (drop skip r))) (reverse-append (take keep bs) (drop keep bs))
    ∙ ap (λ r. from_le_bytes (reverse r)) (drop-append (reverse (drop keep bs)) _ skip long)
    ∙ ap from_le_bytes (reverse-reverse (take keep bs))
  where
    long : length (reverse (drop keep bs)) ≡ skip
    long = omega (arith, length-reverse (drop keep bs), length-drop keep bs)

from_le_bytes-append_zeros :
    (xs zs : List ℕ) → from_le_bytes zs ≡ 0 → from_le_bytes (xs ++ zs) ≡ from_le_bytes xs
unfolding from_le_bytes
from_le_bytes-append_zeros [] zs h = h
from_le_bytes-append_zeros (x ∷ xs) zs h = omega (arith, from_le_bytes-append_zeros xs zs h)

-- Leading zero bytes do not count.
pub from_be_bytes-zeros :
    (zs bs : List ℕ) → from_le_bytes (reverse zs) ≡ 0 → from_be_bytes (zs ++ bs) ≡ from_be_bytes bs
unfolding from_be_bytes
from_be_bytes-zeros zs bs h =
    ap from_le_bytes (reverse-append zs bs) ∙ from_le_bytes-append_zeros (reverse bs) (reverse zs) h

pub length-to_be_bytes : (n x : ℕ) → length (to_be_bytes n x) ≡ n
unfolding to_be_bytes
length-to_be_bytes n x = length-reverse (to_le_bytes n x) ∙ length-to_le_bytes n x

pub to_be_bytes_injective :
    (n x y : ℕ) → x < 256 ^ n → y < 256 ^ n → to_be_bytes n x ≡ to_be_bytes n y → x ≡ y
to_be_bytes_injective n x y h k e =
    sym (from_be_bytes-to_be_bytes n x h) ∙ ap from_be_bytes e ∙ from_be_bytes-to_be_bytes n y k

unfoldable pub bytes_eq : List ℕ → List ℕ → Bool
bytes_eq [] [] = true
bytes_eq [] (y ∷ ys) = false
bytes_eq (x ∷ xs) [] = false
bytes_eq (x ∷ xs) (y ∷ ys) = x == y && bytes_eq xs ys

pub bytes_eq_refl : (xs : List ℕ) → bytes_eq xs xs ≡ true
unfolding bytes_eq
bytes_eq_refl [] = refl
bytes_eq_refl (x ∷ xs) = ground (arith, bytes_eq_refl xs)

pub eq_of_bytes_eq : (xs ys : List ℕ) → bytes_eq xs ys ≡ true → xs ≡ ys
unfolding bytes_eq
eq_of_bytes_eq [] [] h = refl
eq_of_bytes_eq [] (y ∷ ys) h = absurd (ground (arith, h))
eq_of_bytes_eq (x ∷ xs) [] h = absurd (ground (arith, h))
eq_of_bytes_eq (x ∷ xs) (y ∷ ys) h = ground (arith, eq_of_bytes_eq xs ys)
