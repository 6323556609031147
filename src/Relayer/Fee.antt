-- ===== src/Relayer/Fee.antt =====
-- crates/shielder-relayer/src/fee.rs
pub mod Bounds
use zk_os_monorepo.Base.{ℕ, ◌+◌, ◌*◌, ◌/◌, ◌%◌, ◌^◌, Option, none, some, ◌==◌, if◌then◌else◌}
use zk_os_monorepo.Base.Word.{u256_mod, add256, mul256}
use zk_os_monorepo.Base.Int.{ℤ, pos, negsuc}
use zk_os_monorepo.Outcome.{Outcome, ok, err, panic, ok_or, or_panic, ◌>>=◌}
use zk_os_monorepo.Relayer.Decimal.{Decimals}

-- The one error text of the module, "Arithmetic error".
pub data FeeError : Type 0 where
  arithmetic_error : FeeError

pub record FeeDetails : Type 0 where
  pub total_cost_native : ℕ
  pub total_cost_fee_token : ℕ
  pub relayer_cost_native : ℕ
  pub relayer_cost_fee_token : ℕ
  pub pocket_money_native : ℕ
  pub pocket_money_fee_token : ℕ
  pub gas_cost_native : ℕ
  pub gas_cost_fee_token : ℕ
  pub commission_native : ℕ
  pub commission_fee_token : ℕ

abbrev pub relative_price_digits : ℕ
relative_price_digits = 20

-- `U256::try_from(i128)`
unfoldable pub u256_try_from : ℤ → Option ℕ
u256_try_from (pos n) = some n
u256_try_from (negsuc n) = none

-- `a / b` on U256, which panics on a division by zero.
unfoldable pub div256 : ℕ → ℕ → Option ℕ
div256 a b = if b == 0 then none else some (a / b)

module _ (d : Decimals) where
  open d use {Decimal, divide, round_sf, mantissa, scale}

  unfoldable pub scale_u256 : ℕ → Decimal → Outcome FeeError ℕ
  unfolding u256_try_from div256
  scale_u256 a b = do
    rounded ← ok_or (round_sf relative_price_digits b) arithmetic_error
    factor ← ok_or (u256_try_from (mantissa rounded)) arithmetic_error
    or_panic (div256 (mul256 a factor) (10 ^ scale rounded % u256_mod))

  unfoldable pub compute_fee : ℕ → ℕ → ℕ → ℕ → Decimal → Decimal → Outcome FeeError FeeDetails
  compute_fee gas_price required_gas pocket_money commission native_token_unit_price
        fee_token_unit_price =
      let gas_cost_native = mul256 required_gas gas_price in
      let relayer_cost_native = add256 gas_cost_native pocket_money in
      let commission_native = mul256 relayer_cost_native commission / 100 in
      let total_cost_native = add256 relayer_cost_native commission_native in
      do
        native_to_fee_ratio ← or_panic (divide native_token_unit_price fee_token_unit_price)
        total_cost_fee_token ← scale_u256 total_cost_native native_to_fee_ratio
        relayer_cost_fee_token ← scale_u256 relayer_cost_native native_to_fee_ratio
        pocket_money_fee_token ← scale_u256 pocket_money native_to_fee_ratio
        gas_cost_fee_token ← scale_u256 gas_cost_native native_to_fee_ratio
        commission_fee_token ← scale_u256 commission_native native_to_fee_ratio
        ok (record {
          total_cost_native = total_cost_native;
          total_cost_fee_token = total_cost_fee_token;
          relayer_cost_native = relayer_cost_native;
          relayer_cost_fee_token = relayer_cost_fee_token;
          pocket_money_native = pocket_money;
          pocket_money_fee_token = pocket_money_fee_token;
          gas_cost_native = gas_cost_native;
          gas_cost_fee_token = gas_cost_fee_token;
          commission_native = commission_native;
          commission_fee_token = commission_fee_token;
        })
