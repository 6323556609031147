-- ===== src/Setup/FeeRounding.antt =====
-- What the two protocol fees of crates/shielder-setup/lib.rs amount to.
use native.Mathlib.Nat.{add-mul, mul-sub, mul-le-mul_left}
use zk_os_monorepo.Base.{ℕ, ◌+◌, ◌-◌, ◌*◌, ◌≤◌, ◌<◌, ◌≡◌, sym, ◌∙◌, ap, some, arith}
use mathlib.Core.Path.{subst}
use zk_os_monorepo.Base.CeilDiv.{ceil_div, le-ceil_div-mul, ceil_div-mul-lt, ceil_div_unique}
use zk_os_monorepo.Base.Word.{u256_mod}
use zk_os_monorepo.Setup.ProtocolFee.{
  max_bps, narrow, compute_protocol_fee_from_gross, compute_protocol_fee_from_net, gross_rounds_up,
  net_rounds_up, fee_gross_le,
}

-- For an amount below 2 ^ 256 and a rate of at most 10000 basis points the fee on a gross amount is
-- computed without a panic, is the exact share rounded up, and is at most the amount.
pub gross_fee_bounds :
    (amount bps : ℕ)
    → amount < u256_mod
    → bps ≤ max_bps
    → (fee : ℕ) × (compute_protocol_fee_from_gross amount bps ≡ some fee)
      × (amount * bps ≤ fee * max_bps)
      × (fee * max_bps < amount * bps + max_bps)
      × (fee ≤ amount)
gross_fee_bounds amount bps h k = (
  ceil_div (amount * bps) max_bps,
  gross_rounds_up amount bps h k,
  le-ceil_div-mul (amount * bps) max_bps (omega arith),
  ceil_div-mul-lt (amount * bps) max_bps (omega arith),
  fee_gross_le amount bps k,
)

narrow-eq-some : (r fee : ℕ) → narrow r ≡ some fee → r ≡ fee
unfolding narrow
narrow-eq-some r fee h = ground arith

-- The share of the sum is the fee that was added to the net amount.
ceil_div_of_sum :
    (net bps : ℕ)
    → bps < max_bps
    → (let fee = ceil_div (net * bps) (max_bps - bps) in ceil_div ((net + fee) * bps) max_bps ≡ fee)
ceil_div_of_sum net bps k =
    let fee = ceil_div (net * bps) (max_bps - bps) in
    let lower = le-ceil_div-mul (net * bps) (max_bps - bps) (omega arith) in
    let upper = ceil_div-mul-lt (net * bps) (max_bps - bps) (omega arith) in
    let spread = mul-sub fee max_bps bps in
    let split = add-mul net fee bps in
    let room : fee * bps ≤ fee * max_bps = mul-le-mul_left fee (omega arith) in
    ceil_div_unique ((net + fee) * bps) max_bps fee (omega arith)
      (omega (arith, lower, upper, spread, split, room))
      (omega (arith, lower, upper, spread, split, room))

-- A fee that is computed for a net amount is exactly the fee on the net amount plus that fee, for a
-- rate below 10000 basis points and a sum below 2 ^ 256.
pub gross-net :
    (net bps fee : ℕ)
    → bps < max_bps
    → net + fee < u256_mod
    → compute_protocol_fee_from_net net bps ≡ some fee
    → compute_protocol_fee_from_gross (net + fee) bps ≡ some fee
gross-net net bps fee k room computed =
    let e : ceil_div (net * bps) (max_bps - bps) ≡ fee =
      narrow-eq-some _ fee (sym (net_rounds_up net bps (omega arith) k) ∙ computed) in
    gross_rounds_up (net + fee) bps room (omega arith)
    ∙ ap some (subst (λ x. ceil_div ((net + x) * bps) max_bps ≡ x) e (ceil_div_of_sum net bps k))
