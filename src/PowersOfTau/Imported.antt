-- ===== src/PowersOfTau/Imported.antt =====
-- What crates/powers-of-tau/lib.rs reads from a .ptau file.
use native.Mathlib.Nat.{mod-eq_of_lt}
use zk_os_monorepo.Base.{
  ℕ, zero, suc, ◌+◌, ◌-◌, ◌*◌, ◌%◌, ◌^◌, ◌≤◌, ◌<◌, ◌≡◌, ap, ◌∙◌, some, List, [], ◌∷◌, ◌++◌, length,
  length-append, arith,
}
use zk_os_monorepo.Base.Word.{u64_mod}
use zk_os_monorepo.Base.Bytes.{to_le_bytes, length-to_le_bytes, from_le_bytes-to_le_bytes}
use zk_os_monorepo.Outcome.{Outcome, ok}
use zk_os_monorepo.PowersOfTau.{
  BaseField, Curves, IoError, Srs, read_at, read_reprs, unwrap, read_header_size, read_k, g1_offset,
  shift, montgomery_r_inverse, g2_offset, read_g1, read_g2, read, perpetual_powers_of_tau,
}
use zk_os_monorepo.PowersOfTau.Layout.{
  flatten, IsMontgomery, HasCoordinates, read_at-skip, read_at-here, read_reprs-skip,
  read_reprs-here, length-flatten, g1_reprs, g2_reprs, g1_points-stored, g2_points-stored,
  g1_reprs-AllSized, g2_reprs-AllSized, length-g1_reprs,
}

-- The parts of a file with the ceremony's power `k`: the points that are read are the first 2 ^ k of
-- the first section, and the first two of the second.
pub record Contents {b : BaseField} (c : Curves b) : Type 0 where
  pub preamble : List ℕ
  pub head : List ℕ
  pub k : ℕ
  pub ceremony_power : ℕ
  pub section1 : List ℕ
  pub used : List c.G1
  pub others : List c.G1
  pub section2 : List ℕ
  pub g2 : c.G2
  pub s_g2 : c.G2
  pub rest : List ℕ

le-mul : (m n : ℕ) → 0 < m → n ≤ m * n
le-mul m n h = grind arith

both_sections : (s n o : ℕ) → o + 1 ≡ n → 2 * s * (2 * n - 1) ≡ s * (2 * n) + s * (2 * o)
both_sections s zero o h = absurd (omega arith)
both_sections s (suc n) o h =
    let same : o ≡ n = omega arith in
    let odd : 2 * suc n - 1 ≡ 2 * n + 1 = omega arith in rw odd (rw same (grind arith))

module _ (b : BaseField) (f : IsMontgomery b) (c : Curves b) (p : HasCoordinates c)
    (t : Contents c) where
  abbrev pub points2 : List ℕ
  points2 = flatten (g2_reprs b f c p (t.g2 ∷ t.s_g2 ∷ [])) ++ t.rest

  abbrev pub points1 : List ℕ
  points1 =
      flatten (g1_reprs b f c p t.used)
      ++ (flatten (g1_reprs b f c p t.others) ++ (t.section2 ++ points2))

  abbrev pub numbers : List ℕ
  numbers = to_le_bytes 4 t.k ++ (to_le_bytes 4 t.ceremony_power ++ (t.section1 ++ points1))

  abbrev pub file : List ℕ
  file = t.preamble ++ (to_le_bytes 8 (length t.head + 8) ++ (t.head ++ numbers))

  -- The sizes that the format fixes, and a file that a 64-bit offset covers.
  pub record IsFile : Type 0 where
    pub preamble_length : length t.preamble ≡ 16
    pub section1_length : length t.section1 ≡ 12
    pub section2_length : length t.section2 ≡ 12
    pub used_length : length t.used ≡ 2 ^ t.k
    pub others_length : length t.others + 1 ≡ 2 ^ t.k
    pub small_k : t.k < 64
    pub has_size : 0 < b.size
    pub fits : length file < u64_mod

  module _ (i : IsFile) where
    -- The points' bytes.
    length-g1 : (qs : List c.G1) → length (flatten (g1_reprs b f c p qs)) ≡ b.size * (2 * length qs)
    length-g1 qs =
        rw (← length-g1_reprs b f c p qs)
          (length-flatten b.size (g1_reprs b f c p qs) (g1_reprs-AllSized b f c p qs))

    length-file :
        length file
        ≡ 44
          + length t.head
          + b.size * (2 * length t.used)
          + b.size * (2 * length t.others)
          + 12
          + length points2
    length-file =
        let g1 = flatten (g1_reprs b f c p t.used) in
        let more = flatten (g1_reprs b f c p t.others) in
        omega (
          arith,
          length-append t.preamble (to_le_bytes 8 (length t.head + 8) ++ (t.head ++ numbers)),
          length-append (to_le_bytes 8 (length t.head + 8)) (t.head ++ numbers),
          length-append t.head numbers,
          length-append (to_le_bytes 4 t.k)
              (to_le_bytes 4 t.ceremony_power ++ (t.section1 ++ points1)),
          length-append (to_le_bytes 4 t.ceremony_power) (t.section1 ++ points1),
          length-append t.section1 points1,
          length-append g1 (more ++ (t.section2 ++ points2)),
          length-append more (t.section2 ++ points2),
          length-append t.section2 points2,
          length-to_le_bytes 8 (length t.head + 8),
          length-to_le_bytes 4 t.k,
          length-to_le_bytes 4 t.ceremony_power,
          length-g1 t.used,
          length-g1 t.others,
          i.preamble_length,
          i.section1_length,
          i.section2_length,
        )

    small :
        44 + length t.head + b.size * (2 * 2 ^ t.k) + b.size * (2 * length t.others) + 12 < u64_mod
    small = rw (← i.used_length) (omega (arith, length-file, i.fits))

    few_points : 4 * 2 ^ t.k < u64_mod
    few_points = omega (
      arith,
      small,
      i.others_length,
      le-mul b.size (2 * 2 ^ t.k) i.has_size,
      le-mul b.size (2 * length t.others) i.has_size,
    )

    header_size_lem : read_header_size file ≡ ok (length t.head + 8)
    unfolding read_header_size
    header_size_lem =
        rw
          (read_at-skip t.preamble (to_le_bytes 8 (length t.head + 8) ++ (t.head ++ numbers)) 16 0 8
            (omega (arith, i.preamble_length)))
          (rw
            (read_at-here (to_le_bytes 8 (length t.head + 8)) (t.head ++ numbers) 8
              (length-to_le_bytes 8 (length t.head + 8)))
            (ap ok (from_le_bytes-to_le_bytes 8 (length t.head + 8) (omega (arith, small)))))

    k_lem : read_k file ≡ ok t.k
    unfolding read_k
    k_lem =
        let size = to_le_bytes 8 (length t.head + 8) in
        let offset = ((24 + (length t.head + 8)) % u64_mod + u64_mod - 8) % u64_mod in
        let there : read_at file offset 4 ≡ ok (to_le_bytes 4 t.k) =
          read_at-skip t.preamble (size ++ (t.head ++ numbers)) offset (8 + length t.head) 4
            (omega (arith, i.preamble_length, small))
          ∙ read_at-skip size (t.head ++ numbers) (8 + length t.head) (length t.head) 4
              (omega (arith, length-to_le_bytes 8 (length t.head + 8)))
          ∙ read_at-skip t.head numbers (length t.head) 0 4 (omega arith)
          ∙ read_at-here (to_le_bytes 4 t.k)
              (to_le_bytes 4 t.ceremony_power ++ (t.section1 ++ points1)) 4
              (length-to_le_bytes 4 t.k) in
        rw header_size_lem
          (rw there (ap ok (from_le_bytes-to_le_bytes 4 t.k (omega (arith, i.small_k)))))

    to_points :
        (size count offset after : ℕ)
        → offset ≡ 44 + length t.head + after
        → read_reprs size offset count file ≡ read_reprs size after count points1
    to_points size count offset after h =
        let head_size = to_le_bytes 8 (length t.head + 8) in
        let section = t.section1 ++ points1 in
        read_reprs-skip size count t.preamble (head_size ++ (t.head ++ numbers)) offset
          (28 + length t.head + after) (omega (arith, i.preamble_length))
        ∙ read_reprs-skip size count head_size (t.head ++ numbers) (28 + length t.head + after)
            (20 + length t.head + after) (omega (arith, length-to_le_bytes 8 (length t.head + 8)))
        ∙ read_reprs-skip size count t.head numbers (20 + length t.head + after) (20 + after)
            (omega arith)
        ∙ read_reprs-skip size count (to_le_bytes 4 t.k) (to_le_bytes 4 t.ceremony_power ++ section)
            (20 + after) (16 + after) (omega (arith, length-to_le_bytes 4 t.k))
        ∙ read_reprs-skip size count (to_le_bytes 4 t.ceremony_power) section (16 + after)
            (12 + after) (omega (arith, length-to_le_bytes 4 t.ceremony_power))
        ∙ read_reprs-skip size count t.section1 points1 (12 + after) after
            (omega (arith, i.section1_length))

    g1_offset_lem : g1_offset file ≡ ok (44 + length t.head)
    unfolding g1_offset
    g1_offset_lem = rw header_size_lem (ap ok (omega (arith, small)))

    r_inverse_lem : montgomery_r_inverse b ≡ some f.r_inverse
    unfolding montgomery_r_inverse
    r_inverse_lem = ground (arith, f.is_r, f.inverts)

    shift_lem : shift t.k ≡ 2 ^ t.k
    unfolding shift
    shift_lem = ap (λ n. 2 ^ n) {x = t.k % 64} {y = t.k} (mod-eq_of_lt i.small_k)

    g1_lem : read_g1 b c file (shift t.k) ≡ ok t.used
    unfolding read_g1 unwrap
    g1_lem =
        let reprs = g1_reprs b f c p t.used in
        let after = flatten (g1_reprs b f c p t.others) ++ (t.section2 ++ points2) in
        let count : (2 * shift t.k) % u64_mod ≡ length reprs =
          omega (arith, shift_lem, few_points, length-g1_reprs b f c p t.used, i.used_length) in
        let there : read_reprs b.size (44 + length t.head) ((2 * shift t.k) % u64_mod) file
            ≡ ok reprs =
          to_points b.size ((2 * shift t.k) % u64_mod) (44 + length t.head) 0 (omega arith)
          ∙ ap (λ n. read_reprs b.size 0 n points1) count
          ∙ read_reprs-here b.size reprs after (g1_reprs-AllSized b f c p t.used) in
        ground (arith, g1_offset_lem, there, r_inverse_lem, g1_points-stored b f c p t.used)

    g2_offset_lem :
        g2_offset b file
        ≡ ok (44 + length t.head + b.size * (2 * 2 ^ t.k) + b.size * (2 * length t.others) + 12)
    unfolding g2_offset
    g2_offset_lem =
        let n = 2 ^ t.k in
        let points : ((2 * shift t.k) % u64_mod + u64_mod - 1) % u64_mod ≡ 2 * n - 1 =
          omega (arith, shift_lem, few_points, i.others_length) in
        let size = both_sections b.size n (length t.others) i.others_length in
        rw g1_offset_lem (rw k_lem (rw points (rw size (ap ok (omega (arith, small))))))

    g2_lem : read_g2 b c file 2 ≡ ok (t.g2 ∷ t.s_g2 ∷ [])
    unfolding read_g2
    g2_lem =
        let qs = t.g2 ∷ t.s_g2 ∷ [] in
        let reprs = g2_reprs b f c p qs in
        let g1 = flatten (g1_reprs b f c p t.used) in
        let more = flatten (g1_reprs b f c p t.others) in
        let s1 = b.size * (2 * 2 ^ t.k) in
        let s2 = b.size * (2 * length t.others) in
        let offset = 44 + length t.head + s1 + s2 + 12 in
        let s1_length : length g1 ≡ s1 =
          length-g1 t.used ∙ ap (λ n. b.size * (2 * n)) i.used_length in
        let there : read_reprs (2 * b.size) offset 4 file ≡ ok reprs =
          to_points (2 * b.size) 4 offset (s1 + s2 + 12) (omega arith)
          ∙ read_reprs-skip (2 * b.size) 4 g1 (more ++ (t.section2 ++ points2)) (s1 + s2 + 12)
              (s2 + 12) (omega (arith, s1_length))
          ∙ read_reprs-skip (2 * b.size) 4 more (t.section2 ++ points2) (s2 + 12) 12
              (omega (arith, length-g1 t.others))
          ∙ read_reprs-skip (2 * b.size) 4 t.section2 points2 12 0
              (omega (arith, i.section2_length))
          ∙ read_reprs-here (2 * b.size) reprs t.rest (g2_reprs-AllSized b f c p qs) in
        ground (arith, g2_offset_lem, there, r_inverse_lem, g2_points-stored b f c p qs)

    -- Let a file have the layout of a ceremony, with a power below 64, a header of any length, and
    -- points in the Montgomery form. Then the import succeeds, whatever else the file holds, and gives
    -- the power k, the first 2 ^ k points of the first section, and the first two of the second.
    pub read_lem :
        (read_custom : List ℕ → Outcome IoError (Srs b c))
        → read b c read_custom (some file) perpetual_powers_of_tau
          ≡ ok (record { k = t.k; g = t.used; g2 = t.g2; s_g2 = t.s_g2 })
    unfolding read
    read_lem read_custom = ground (arith, k_lem, g1_lem, g2_lem)
