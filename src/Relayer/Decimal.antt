-- ===== src/Relayer/Decimal.antt =====
-- `Decimal` of the crate rust_decimal, as a parameter: what the relayer uses of it. `none` of an
-- operator stands for its panic, `none` of `round_sf` for its result.
use zk_os_monorepo.Base.{ℕ, Option}
use zk_os_monorepo.Base.Int.{ℤ}
use zk_os_monorepo.Base.Assoc.{Key}

pub record Decimals : Type 1 where
  pub Decimal : Type 0
  -- `PartialEq`, which compares the numbers that two decimals stand for.
  pub equality : Key Decimal
  pub divide : Decimal → Decimal → Option Decimal
  pub multiply : Decimal → Decimal → Option Decimal
  pub from_i128_with_scale : ℤ → ℕ → Option Decimal
  pub round_sf : ℕ → Decimal → Option Decimal
  pub mantissa : Decimal → ℤ
  pub scale : Decimal → ℕ
