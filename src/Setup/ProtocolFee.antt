-- ===== src/Setup/ProtocolFee.antt =====
-- Module `protocol_fee` of crates/shielder-setup/lib.rs. The arithmetic is that of U512, whose
-- operators wrap; `none` stands for the panics: an overflow of the result, or a division by zero.
use native.Mathlib.Nat.{mul-le-mul, mul-le-mul_left}
use zk_os_monorepo.Base.{
  ℕ, ◌+◌, ◌-◌, ◌*◌, ◌/◌, ◌%◌, ◌≤◌, ◌<◌, ◌≡◌, Option, none, some, arith, ltb, ◌==◌, if◌then◌else◌,
}
use zk_os_monorepo.Base.CeilDiv.{ceil_div, ceil_div-le}
use zk_os_monorepo.Base.Word.{u256_mod, u512_mod}

abbrev pub max_bps : ℕ
max_bps = 10000

-- `if r > U512::from(U256::MAX) { panic!() }; U256::from(r)`
unfoldable pub narrow : ℕ → Option ℕ
narrow r = if ltb (u256_mod - 1) r then none else some r

unfoldable pub compute_protocol_fee_from_gross : ℕ → ℕ → Option ℕ
unfolding narrow
compute_protocol_fee_from_gross amount bps =
    narrow (((amount * bps) % u512_mod + (max_bps - 1)) % u512_mod / max_bps)

unfoldable pub compute_protocol_fee_from_net : ℕ → ℕ → Option ℕ
unfolding narrow
compute_protocol_fee_from_net amount bps =
    let denom = (max_bps + u512_mod - bps) % u512_mod in
    if denom == 0
    then none
    else narrow ((((amount * bps) % u512_mod + denom) % u512_mod + u512_mod - 1) % u512_mod / denom)

pub fee_gross_le : (amount bps : ℕ) → bps ≤ max_bps → ceil_div (amount * bps) max_bps ≤ amount
fee_gross_le amount bps k =
    ceil_div-le (amount * bps) max_bps amount (omega arith) (mul-le-mul_left amount k)

-- The product of an amount and a rate stays far below 2 ^ 512.
pub fee_product_bound :
    (amount bps : ℕ) → amount < u256_mod → bps ≤ max_bps → amount * bps ≤ u256_mod * max_bps
fee_product_bound amount bps h k =
    mul-le-mul {n₁ = amount} {m₁ = bps} {n₂ = u256_mod} {m₂ = max_bps} (omega arith) k

-- With nothing wrapped, the two fees are plain roundings up; the gross fee never overflows.
pub gross_rounds_up :
    (amount bps : ℕ)
    → amount < u256_mod
    → bps ≤ max_bps
    → compute_protocol_fee_from_gross amount bps ≡ some (ceil_div (amount * bps) max_bps)
unfolding compute_protocol_fee_from_gross ceil_div
gross_rounds_up amount bps h k =
    ground (arith, fee_product_bound amount bps h k, fee_gross_le amount bps k)

pub net_rounds_up :
    (amount bps : ℕ)
    → amount < u256_mod
    → bps < max_bps
    → compute_protocol_fee_from_net amount bps ≡ narrow (ceil_div (amount * bps) (max_bps - bps))
unfolding compute_protocol_fee_from_net ceil_div
net_rounds_up amount bps h k = ground (arith, fee_product_bound amount bps h (omega arith))
