-- ===== src/Token.antt =====
-- `Token` of crates/shielder-account/src/lib.rs. NATIVE_TOKEN_ADDRESS is the field's zero, whose
-- address is the number 0.
use zk_os_monorepo.Base.{ℕ, ◌≡◌, ◌≢◌, refl, Bool, true, false, ◌↔◌, ◌==◌, if◌then◌else◌, arith}

pub data Token : Type 0 where
  native : Token
  erc20 : ℕ → Token

-- `field_to_address(NATIVE_TOKEN_ADDRESS)`
abbrev pub native_address : ℕ
native_address = 0

unfoldable pub address : Token → ℕ
address native = native_address
address (erc20 a) = a

-- `From<Address>`
unfoldable pub from_address : ℕ → Token
from_address a = if a == native_address then native else erc20 a

-- The derived `PartialEq`.
unfoldable pub token_eq : Token → Token → Bool
token_eq native native = true
token_eq (erc20 a) (erc20 b) = a == b
token_eq _ _ = false

pub token_eq_iff : (s t : Token) → (token_eq s t ≡ true) ↔ (s ≡ t)
unfolding token_eq
token_eq_iff native native = ground arith
token_eq_iff native (erc20 b) = ground arith
token_eq_iff (erc20 a) native = ground arith
token_eq_iff (erc20 a) (erc20 b) = ground arith

-- A token is recovered from its address, but for an ERC20 token at the native address.
pub from_address-address : (t : Token) → t ≢ erc20 native_address → from_address (address t) ≡ t
unfolding from_address address
from_address-address native h = refl
from_address-address (erc20 a) h = ground arith
