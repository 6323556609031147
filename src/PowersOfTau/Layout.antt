-- ===== src/PowersOfTau/Layout.antt =====
-- The layout of a .ptau file, which crates/powers-of-tau/lib.rs takes for granted: a preamble, a header
-- that ends with two numbers, and two sections of points, each point in the Montgomery form of its
-- coordinates. Reading at an offset of such a file.
use mathlib.Core.List.{append_assoc}
use zk_os_monorepo.Base.{
  drop-skip, drop-append, ℕ, zero, suc, ◌+◌, ◌*◌, ◌≡◌, refl, some, List, [], ◌∷◌, ◌++◌, length,
  length-append, take-append, arith,
}
use zk_os_monorepo.Outcome.{ok}
use zk_os_monorepo.PowersOfTau.{
  BaseField, Curves, read_at, read_reprs, montgomery_r, coordinate, g1_points, coordinate2,
  g2_points,
}

abbrev pub flatten : List (List ℕ) → List ℕ
flatten [] = []
flatten (x ∷ xs) = x ++ flatten xs

-- What the field promises: fixed-size representations that are read back, and a Montgomery factor
-- whose inverse cancels it.
pub record IsMontgomery (b : BaseField) : Type 0 where
  pub repr_length : (x : b.F) → length (b.to_repr x) ≡ b.size
  pub repr_back : (x : b.F) → b.from_repr (b.to_repr x) ≡ some x
  pub r : b.F
  pub r_inverse : b.F
  pub is_r : montgomery_r b ≡ some r
  pub inverts : b.invert r ≡ some r_inverse
  pub cancels : (x : b.F) → b.mul (b.mul x r) r_inverse ≡ x

-- Points have coordinates, from which they are made; those of the second group have two parts.
pub record HasCoordinates {b : BaseField} (c : Curves b) : Type 0 where
  pub x1 : c.G1 → b.F
  pub y1 : c.G1 → b.F
  pub point1 : (p : c.G1) → c.from_xy1 (x1 p) (y1 p) ≡ some p
  pub x2 : c.G2 → b.F × b.F
  pub y2 : c.G2 → b.F × b.F
  pub extend : b.F × b.F → c.F2
  pub extended : (u v : b.F) → c.from_repr2 (b.to_repr u ++ b.to_repr v) ≡ some (extend (u, v))
  pub point2 : (p : c.G2) → c.from_xy2 (extend (x2 p)) (extend (y2 p)) ≡ some p

pub read_at-skip :
    (xs ys : List ℕ) (offset offset' count : ℕ)
    → offset ≡ length xs + offset'
    → read_at (xs ++ ys) offset count ≡ read_at ys offset' count
unfolding read_at
read_at-skip xs ys offset offset' count h = rw (drop-skip xs ys offset offset' h)

pub read_at-here :
    (xs ys : List ℕ) (count : ℕ) → length xs ≡ count → read_at (xs ++ ys) 0 count ≡ ok xs
unfolding read_at
read_at-here xs ys count h = ground (arith, take-append xs ys count h)

pub read_reprs-skip :
    (size count : ℕ) (xs ys : List ℕ) (offset offset' : ℕ)
    → offset ≡ length xs + offset'
    → read_reprs size offset count (xs ++ ys) ≡ read_reprs size offset' count ys
unfolding read_reprs
read_reprs-skip size zero xs ys offset offset' h = refl
read_reprs-skip size (suc count) xs ys offset offset' h =
    rw (read_at-skip xs ys offset offset' size h)
      (rw (read_reprs-skip size count xs ys (offset + size) (offset' + size) (omega arith)) refl)

-- All of a size.
abbrev pub AllSized : ℕ → List (List ℕ) → Type 0
AllSized size [] = Unit {0}
AllSized size (x ∷ xs) = (length x ≡ size) × AllSized size xs

pub read_reprs-here :
    (size : ℕ) (reprs : List (List ℕ)) (rest : List ℕ)
    → AllSized size reprs
    → read_reprs size 0 (length reprs) (flatten reprs ++ rest) ≡ ok reprs
unfolding read_reprs
read_reprs-here size [] rest h = refl
read_reprs-here size (x ∷ reprs) rest (h, hs) =
    let split = append_assoc x (flatten reprs) rest in
    rw split (
      rw (read_at-here x (flatten reprs ++ rest) size h) (
        rw
          (read_reprs-skip size (length reprs) x (flatten reprs ++ rest) (0 + size) 0 (omega arith))
          (rw (read_reprs-here size reprs rest hs) refl)))

pub length-flatten :
    (size : ℕ) (reprs : List (List ℕ))
    → AllSized size reprs
    → length (flatten reprs) ≡ size * length reprs
length-flatten size [] h = omega arith
length-flatten size (x ∷ reprs) (h, hs) =
    grind (arith, length-append x (flatten reprs), length-flatten size reprs hs)

module _ (b : BaseField) (f : IsMontgomery b) (c : Curves b) (p : HasCoordinates c) where
  -- A coordinate as the file holds it.
  abbrev pub stored : b.F → List ℕ
  stored x = b.to_repr (b.mul x f.r)

  abbrev pub g1_reprs : List c.G1 → List (List ℕ)
  g1_reprs [] = []
  g1_reprs (q ∷ qs) = stored (p.x1 q) ∷ stored (p.y1 q) ∷ g1_reprs qs

  abbrev pub stored2 : b.F × b.F → List ℕ
  stored2 (u, v) = stored u ++ stored v

  abbrev pub g2_reprs : List c.G2 → List (List ℕ)
  g2_reprs [] = []
  g2_reprs (q ∷ qs) = stored2 (p.x2 q) ∷ stored2 (p.y2 q) ∷ g2_reprs qs

  coordinate-stored : (x : b.F) → coordinate b f.r_inverse (stored x) ≡ some x
  unfolding coordinate
  coordinate-stored x = ground (arith, f.repr_back (b.mul x f.r), f.cancels x)

  pub g1_points-stored : (qs : List c.G1) → g1_points b c f.r_inverse (g1_reprs qs) ≡ some qs
  unfolding g1_points
  g1_points-stored [] = refl
  g1_points-stored (q ∷ qs) = ground (
    arith,
    coordinate-stored (p.x1 q),
    coordinate-stored (p.y1 q),
    p.point1 q,
    g1_points-stored qs,
  )

  coordinate2-stored :
      (u v : b.F) → coordinate2 b c f.r_inverse (stored2 (u, v)) ≡ some (p.extend (u, v))
  unfolding coordinate2
  coordinate2-stored u v =
      let x = stored u in
      let y = stored v in
      let size : length x ≡ b.size = f.repr_length (b.mul u f.r) in
      ground (
        arith,
        take-append x y b.size size,
        drop-append x y b.size size,
        coordinate-stored u,
        coordinate-stored v,
        p.extended u v,
      )

  pub g2_points-stored : (qs : List c.G2) → g2_points b c f.r_inverse (g2_reprs qs) ≡ some qs
  unfolding g2_points
  g2_points-stored [] = refl
  g2_points-stored (q ∷ qs) = ground (
    arith,
    coordinate2-stored (p.x2 q).0 (p.x2 q).1,
    coordinate2-stored (p.y2 q).0 (p.y2 q).1,
    p.point2 q,
    g2_points-stored qs,
  )

  pub g1_reprs-AllSized : (qs : List c.G1) → AllSized b.size (g1_reprs qs)
  g1_reprs-AllSized [] = tt
  g1_reprs-AllSized (q ∷ qs) = (
    f.repr_length (b.mul (p.x1 q) f.r),
    (f.repr_length (b.mul (p.y1 q) f.r), g1_reprs-AllSized qs),
  )

  pub length-stored2 : (a : b.F × b.F) → length (stored2 a) ≡ 2 * b.size
  length-stored2 (u, v) = omega (
    arith,
    length-append (stored u) (stored v),
    f.repr_length (b.mul u f.r),
    f.repr_length (b.mul v f.r),
  )

  pub g2_reprs-AllSized : (qs : List c.G2) → AllSized (2 * b.size) (g2_reprs qs)
  g2_reprs-AllSized [] = tt
  g2_reprs-AllSized (q ∷ qs) =
      (length-stored2 (p.x2 q), (length-stored2 (p.y2 q), g2_reprs-AllSized qs))

  pub length-g1_reprs : (qs : List c.G1) → length (g1_reprs qs) ≡ 2 * length qs
  length-g1_reprs [] = refl
  length-g1_reprs (q ∷ qs) = omega (arith, length-g1_reprs qs)
