-- ===== src/Base/Word.antt =====
-- Unsigned machine integers as native numbers: `uint 256` is the range of the contracts' and of
-- alloy's U256, whose operators `+`, `-` and `*` wrap modulo 2 ^ 256 and whose checked operations
-- return an option; u32 and u64 are the same at their widths.
use Prim.Native.Nat.{ℕ, ◌+◌, ◌-◌, ◌*◌, ◌%◌, ◌^◌, ◌≤◌, ◌<◌}
use mathlib.Core.Path.{◌≡◌}
use mathlib.Core.Option.{Option, none, some}
use native.Mathlib.Nat.{mod-eq_of_lt}
use native.Mathlib.Omega.{arith}
use zk_os_monorepo.Base.Tests.{ltb, leb, if◌then◌else◌}

abbrev pub u256_mod : ℕ
u256_mod = 2 ^ 256

abbrev pub u512_mod : ℕ
u512_mod = 2 ^ 512

abbrev pub u64_mod : ℕ
u64_mod = 2 ^ 64

abbrev pub u32_mod : ℕ
u32_mod = 2 ^ 32

-- `a + b`, `a - b` and `a * b` on U256.
unfoldable pub add256 : ℕ → ℕ → ℕ
add256 a b = (a + b) % u256_mod

unfoldable pub sub256 : ℕ → ℕ → ℕ
sub256 a b = (a + u256_mod - b) % u256_mod

unfoldable pub mul256 : ℕ → ℕ → ℕ
mul256 a b = (a * b) % u256_mod

-- `checked_add` and `checked_sub` on U256.
unfoldable pub checked_add256 : ℕ → ℕ → Option ℕ
checked_add256 a b = if ltb (a + b) u256_mod then some (a + b) else none

unfoldable pub checked_sub256 : ℕ → ℕ → Option ℕ
checked_sub256 a b = if leb b a then some (a - b) else none

pub add256-exact : (a b : ℕ) → a + b < u256_mod → add256 a b ≡ a + b
unfolding add256
add256-exact a b h = omega arith

pub sub256-exact : (a b : ℕ) → b ≤ a → a < u256_mod → sub256 a b ≡ a - b
unfolding sub256
sub256-exact a b h k = omega arith

pub mul256-exact : (a b : ℕ) → a * b < u256_mod → mul256 a b ≡ a * b
unfolding mul256
mul256-exact a b h = mod-eq_of_lt h
