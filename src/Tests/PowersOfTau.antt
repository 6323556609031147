-- ===== src/Tests/PowersOfTau.antt =====
-- A file of points over the field of seven elements, with the power 1. The field's representations have
-- one byte, so that its Montgomery factor is 256 % 7, which is 4.
use zk_os_monorepo.Base.{
  ℕ, zero, suc, ◌*◌, ◌%◌, ◌≡◌, refl, Option, none, some, List, [], ◌∷◌, replicate, arith,
}
use zk_os_monorepo.Base.Bytes.{to_le_bytes, from_le_bytes}
use zk_os_monorepo.Outcome.{Outcome, ok, err}
use zk_os_monorepo.PowersOfTau.{
  BaseField, Curves, IoError, invalid_data, Srs, montgomery_r, perpetual_powers_of_tau, read,
}
use zk_os_monorepo.PowersOfTau.Layout.{IsMontgomery, HasCoordinates}
use zk_os_monorepo.PowersOfTau.Imported.{Contents, IsFile, file, read_lem}

pub data Seven : Type 0 where
  c0 c1 c2 c3 c4 c5 c6 : Seven

abbrev pub to_number : Seven → ℕ
to_number c0 = 0
to_number c1 = 1
to_number c2 = 2
to_number c3 = 3
to_number c4 = 4
to_number c5 = 5
to_number c6 = 6

abbrev pub element_at : List Seven → ℕ → Option Seven
element_at [] n = none
element_at (x ∷ xs) zero = some x
element_at (x ∷ xs) (suc n) = element_at xs n

abbrev pub elements : List Seven
elements = c0 ∷ c1 ∷ c2 ∷ c3 ∷ c4 ∷ c5 ∷ c6 ∷ []

abbrev pub or_zero : Option Seven → Seven
or_zero none = c0
or_zero (some x) = x

abbrev pub from_repr : List ℕ → Option Seven
from_repr [] = none
from_repr (n ∷ []) = element_at elements n
from_repr (n ∷ m ∷ ns) = none

abbrev times : Seven → Seven → Seven
times x y = or_zero (element_at elements ((to_number x * to_number y) % 7))

abbrev invert : Seven → Option Seven
invert c0 = none
invert c1 = some c1
invert c2 = some c4
invert c3 = some c5
invert c4 = some c2
invert c5 = some c3
invert c6 = some c6

abbrev base : BaseField
base = record {
  F = Seven;
  size = 1;
  from_repr = from_repr;
  to_repr = λ x. to_number x ∷ [];
  minus_one = c6;
  mul = times;
  invert = invert;
}

abbrev pair_of : List ℕ → Option (Seven × Seven)
pair_of [] = none
pair_of (n ∷ ns) = elim (from_repr (n ∷ [])) [
  | none ↦ none
  | some x ↦ elim (from_repr ns) [ none ↦ none | some y ↦ some (x, y) ]
]

abbrev curves : Curves base
curves = record {
  G1 = Seven × Seven;
  G2 = (Seven × Seven) × (Seven × Seven);
  F2 = Seven × Seven;
  from_repr2 = pair_of;
  from_xy1 = λ x y. some (x, y);
  from_xy2 = λ x y. some (x, y);
}

pub repr_back : (x : Seven) → from_repr (to_number x ∷ []) ≡ some x
repr_back c0 = refl
repr_back c1 = refl
repr_back c2 = refl
repr_back c3 = refl
repr_back c4 = refl
repr_back c5 = refl
repr_back c6 = refl

cancels : (x : Seven) → times (times x c4) c2 ≡ x
cancels c0 = refl
cancels c1 = refl
cancels c2 = refl
cancels c3 = refl
cancels c4 = refl
cancels c5 = refl
cancels c6 = refl

r_is_4 : montgomery_r base ≡ some c4
unfolding montgomery_r from_le_bytes to_le_bytes
r_is_4 = refl

abbrev montgomery : IsMontgomery base
montgomery = record {
  repr_length = λ x. refl;
  repr_back = repr_back;
  r = c4;
  r_inverse = c2;
  is_r = r_is_4;
  inverts = refl;
  cancels = cancels;
}

extended :
    (x y : Seven)
    → ◌≡◌ {A = Option (Seven × Seven)} (pair_of (to_number x ∷ to_number y ∷ [])) (some (x, y))
extended x y = ground (arith, repr_back x, repr_back y)

abbrev coordinates : HasCoordinates curves
coordinates = record {
  x1 = λ p. p.0;
  y1 = λ p. p.1;
  point1 = λ p. refl;
  x2 = λ p. p.0;
  y2 = λ p. p.1;
  extend = λ u. u;
  extended = extended;
  point2 = λ p. refl;
}

abbrev contents : Contents curves
contents = record {
  preamble = replicate 16 65;
  head = 8 ∷ 8 ∷ 8 ∷ [];
  k = 1;
  ceremony_power = 1;
  section1 = replicate 12 2;
  used = (c1, c2) ∷ (c3, c4) ∷ [];
  others = (c5, c6) ∷ [];
  section2 = replicate 12 3;
  g2 = ((c1, c1), (c2, c3));
  s_g2 = ((c4, c5), (c6, c0));
  rest = 9 ∷ 9 ∷ [];
}

contents-IsFile : IsFile base montgomery curves coordinates contents
unfolding to_le_bytes
contents-IsFile = record {
  preamble_length = refl;
  section1_length = refl;
  section2_length = refl;
  used_length = refl;
  others_length = refl;
  small_k = omega arith;
  has_size = omega arith;
  fits = omega arith;
}

abbrev read_custom : List ℕ → Outcome IoError (Srs base curves)
read_custom bytes = err invalid_data

read_lem_example :
    read base curves read_custom
      (some (file base montgomery curves coordinates contents))
      perpetual_powers_of_tau
    ≡ ok (record {
      k = 1;
      g = (c1, c2) ∷ (c3, c4) ∷ [];
      g2 = ((c1, c1), (c2, c3));
      s_g2 = ((c4, c5), (c6, c0));
    })
read_lem_example = read_lem base montgomery curves coordinates contents contents-IsFile read_custom
