-- ===== src/Relayer/Fee/Bounds.antt =====
-- What `compute_fee` of crates/shielder-relayer/src/fee.rs returns where nothing overflows.
use native.Mathlib.Nat.{
  mod-eq_of_lt, pow-le-pow_right, one-le-pow, mul-le-mul_right, lt_of_le_of_lt, add-mul,
  div-mul-le_self, lt-div-mul-add, div-lt_iff_lt-mul, le-div_iff_mul-le,
}
use zk_os_monorepo.Base.{ℕ, ◌+◌, ◌*◌, ◌/◌, ◌%◌, ◌^◌, ◌≤◌, ◌<◌, ◌≡◌, some, arith}
use zk_os_monorepo.Base.Word.{u256_mod, mul256-exact, add256-exact}
use zk_os_monorepo.Base.Int.{pos}
use zk_os_monorepo.Outcome.{ok}
use zk_os_monorepo.Relayer.Decimal.{Decimals}
use zk_os_monorepo.Relayer.Fee.{FeeDetails, scale_u256, compute_fee, relative_price_digits}

-- The total cost over the integers.
abbrev pub exact_total : ℕ → ℕ → ℕ → ℕ → ℕ
exact_total gas_price required_gas pocket_money commission =
    let cost = required_gas * gas_price + pocket_money in cost + cost * commission / 100

-- The fees over the integers: the price ratio is a ratio of a factor and a divisor.
abbrev pub exact_fees : ℕ → ℕ → ℕ → ℕ → ℕ → ℕ → FeeDetails
exact_fees gas_price required_gas pocket_money commission factor divisor =
    let gas = required_gas * gas_price in
    let cost = gas + pocket_money in
    let share = cost * commission / 100 in
    record {
      total_cost_native = cost + share;
      total_cost_fee_token = (cost + share) * factor / divisor;
      relayer_cost_native = cost;
      relayer_cost_fee_token = cost * factor / divisor;
      pocket_money_native = pocket_money;
      pocket_money_fee_token = pocket_money * factor / divisor;
      gas_cost_native = gas;
      gas_cost_fee_token = gas * factor / divisor;
      commission_native = share;
      commission_fee_token = share * factor / divisor;
    }

module _ (d : Decimals) where
  open d use {Decimal, divide, round_sf, mantissa, scale}

  -- What a conversion to the fee token computes to once the ratio is rounded.
  scale_u256_exact :
      (a factor : ℕ) (ratio rounded : Decimal)
      → round_sf relative_price_digits ratio ≡ some rounded
      → mantissa rounded ≡ pos factor
      → scale rounded ≤ 28
      → a * factor < u256_mod
      → scale_u256 d a ratio ≡ ok (a * factor / 10 ^ scale rounded)
  unfolding scale_u256
  scale_u256_exact a factor ratio rounded r m s fits =
      let low : 0 < 10 ^ scale rounded = one-le-pow (scale rounded) 10 (omega arith) in
      let high : 10 ^ scale rounded ≤ 10 ^ 28 =
        pow-le-pow_right {n = 10} (omega arith) {i = scale rounded} {j = 28} s in
      let plain : 10 ^ scale rounded % u256_mod ≡ 10 ^ scale rounded = mod-eq_of_lt (omega arith) in
      ground (arith, mul256-exact a factor fits)

  -- If the price ratio exists and rounds to a nonnegative decimal of at most 28 places, and the
  -- product of relayer cost and commission, the total cost, and the total cost times the ratio's
  -- mantissa stay below 2 ^ 256, the fees are computed,
  -- with no error and no panic, and are those of the integers: the cost is gas plus pocket money,
  -- the commission its share rounded down, the total their sum, and each amount in the fee token
  -- the native amount times the rounded ratio, rounded down.
  pub compute_fee_exact :
      (gas_price required_gas pocket_money commission factor : ℕ)
      (native_price fee_price ratio rounded : Decimal)
      → divide native_price fee_price ≡ some ratio
      → round_sf relative_price_digits ratio ≡ some rounded
      → mantissa rounded ≡ pos factor
      → scale rounded ≤ 28
      → (required_gas * gas_price + pocket_money) * commission < u256_mod
      → exact_total gas_price required_gas pocket_money commission < u256_mod
      → exact_total gas_price required_gas pocket_money commission * factor < u256_mod
      → compute_fee d gas_price required_gas pocket_money commission native_price fee_price
        ≡ ok (exact_fees gas_price required_gas pocket_money commission factor (10 ^ scale rounded))
  unfolding compute_fee
  compute_fee_exact gas_price required_gas pocket_money commission factor native_price fee_price
        ratio rounded divides rounds m s share_fits total_fits scaled_fits =
      let gas = required_gas * gas_price in
      let cost = gas + pocket_money in
      let share = cost * commission / 100 in
      let scaled = λ (x : ℕ) (le : x ≤ cost + share).
        scale_u256_exact x factor ratio rounded rounds m s
          (lt_of_le_of_lt (mul-le-mul_right factor le) scaled_fits) in
      ground (
        arith,
        mul256-exact required_gas gas_price (omega arith),
        add256-exact gas pocket_money (omega arith),
        mul256-exact cost commission share_fits,
        add256-exact cost share total_fits,
        scaled (cost + share) (omega arith),
        scaled cost (omega arith),
        scaled pocket_money (omega arith),
        scaled gas (omega arith),
        scaled share (omega arith),
      )

div-superadditive :
    (a b c : ℕ) → 0 < c → (a / c + b / c ≤ (a + b) / c) × ((a + b) / c ≤ a / c + b / c + 1)
div-superadditive a b c h =
    let a_low = div-mul-le_self a c in
    let b_low = div-mul-le_self b c in
    let a_high = lt-div-mul-add {a = a} {b = c} h in
    let b_high = lt-div-mul-add {a = b} {b = c} h in
    let split = add-mul (a / c) (b / c) c in
    let twice = add-mul (a / c + b / c) 2 c in
    let above : (a + b) / c < a / c + b / c + 2 =
      (div-lt_iff_lt-mul {k = c} {x = a + b} {y = a / c + b / c + 2} h).1 (omega arith) in
    ((le-div_iff_mul-le {k = c} {x = a / c + b / c} {y = a + b} h).1 (omega arith), omega arith)

scaled_sum :
    (a b factor c : ℕ)
    → 0 < c
    → (a * factor / c + b * factor / c ≤ (a + b) * factor / c)
      × ((a + b) * factor / c ≤ a * factor / c + b * factor / c + 1)
scaled_sum a b factor c h =
    rw (add-mul a b factor) (div-superadditive (a * factor) (b * factor) c h)

module _ (d : Decimals) where
  open d use {Decimal, divide, round_sf, mantissa, scale}

  -- If the price ratio exists and rounds to a nonnegative decimal of at most 28 places, and the
  -- commission's product, the total cost, and the total cost times the ratio's mantissa stay below
  -- 2 ^ 256, then of computed fees the parts quoted in the fee token never sum to more than the
  -- whole, and fall short of it by at most one unit: relayer cost and commission in the total cost,
  -- gas cost and pocket money in the relayer cost.
  pub compute_fee_parts :
      (gas_price required_gas pocket_money commission factor : ℕ)
      (native_price fee_price ratio rounded : Decimal) (fees : FeeDetails)
      → divide native_price fee_price ≡ some ratio
      → round_sf relative_price_digits ratio ≡ some rounded
      → mantissa rounded ≡ pos factor
      → scale rounded ≤ 28
      → (required_gas * gas_price + pocket_money) * commission < u256_mod
      → exact_total gas_price required_gas pocket_money commission < u256_mod
      → exact_total gas_price required_gas pocket_money commission * factor < u256_mod
      → compute_fee d gas_price required_gas pocket_money commission native_price fee_price
        ≡ ok fees
      → (fees.relayer_cost_fee_token + fees.commission_fee_token ≤ fees.total_cost_fee_token)
        × (fees.total_cost_fee_token ≤ fees.relayer_cost_fee_token + fees.commission_fee_token + 1)
        × (fees.gas_cost_fee_token + fees.pocket_money_fee_token ≤ fees.relayer_cost_fee_token)
        × (fees.relayer_cost_fee_token ≤ fees.gas_cost_fee_token + fees.pocket_money_fee_token + 1)
  compute_fee_parts gas_price required_gas pocket_money commission factor native_price fee_price
        ratio rounded fees divides rounds m s share_fits total_fits scaled_fits computed =
      let gas = required_gas * gas_price in
      let cost = gas + pocket_money in
      let low : 0 < 10 ^ scale rounded = one-le-pow (scale rounded) 10 (omega arith) in
      ground (
        arith,
        computed,
        compute_fee_exact d gas_price required_gas pocket_money commission factor native_price
            fee_price ratio rounded divides rounds m s share_fits total_fits scaled_fits,
        scaled_sum cost (cost * commission / 100) factor (10 ^ scale rounded) low,
        scaled_sum gas pocket_money factor (10 ^ scale rounded) low,
      )
