-- ===== src/Tests/Setup.antt =====
-- Protocol fees, conversions and tokens at concrete inputs.
use zk_os_monorepo.Base.{◌+◌, ◌≡◌, refl, some, arith}
use zk_os_monorepo.Setup.ProtocolFee.{
  compute_protocol_fee_from_gross, compute_protocol_fee_from_net,
}
use zk_os_monorepo.Setup.FeeRounding.{gross-net}

gross-net_example : compute_protocol_fee_from_gross (1001 + 6) 50 ≡ some 6
unfolding compute_protocol_fee_from_net
gross-net_example = gross-net 1001 50 6 (omega arith) (omega arith) refl
