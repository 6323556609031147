-- ===== src/Relayer/TokenKind.antt =====
-- crates/shielder-relayer/src/token.rs. A URL is a number.
use zk_os_monorepo.Base.{ℕ, ◌≡◌, refl, Bool, true, false, ◌&&◌, ◌==◌, ◌↔◌, arith}
use zk_os_monorepo.Base.Assoc.{Key}
use zk_os_monorepo.Token.{Token}

pub data TokenKind : Type 0 where
  native : TokenKind
  erc20 : ℕ → ℕ → TokenKind

-- `From<TokenKind> for Token`
unfoldable pub from_kind : TokenKind → Token
from_kind native = Token.native
from_kind (erc20 address decimals) = Token.erc20 address

-- The derived `PartialEq`.
unfoldable pub kind_eq : TokenKind → TokenKind → Bool
kind_eq native native = true
kind_eq (erc20 a m) (erc20 b n) = a == b && m == n
kind_eq _ _ = false

pub kind_eq_iff : (s t : TokenKind) → (kind_eq s t ≡ true) ↔ (s ≡ t)
unfolding kind_eq
kind_eq_iff native native = ground arith
kind_eq_iff native (erc20 b n) = ground arith
kind_eq_iff (erc20 a m) native = ground arith
kind_eq_iff (erc20 a m) (erc20 b n) = ground arith

pub kind_eq_refl : (k : TokenKind) → kind_eq k k ≡ true
kind_eq_refl k = (kind_eq_iff k k).1 refl

pub kind_eq_sym : (j k : TokenKind) → kind_eq j k ≡ true → kind_eq k j ≡ true
kind_eq_sym j k h = ground (arith, kind_eq_iff j k, kind_eq_iff k j)

pub kind_eq_trans :
    (i j k : TokenKind) → kind_eq i j ≡ true → kind_eq j k ≡ true → kind_eq i k ≡ true
kind_eq_trans i j k g h = ground (arith, kind_eq_iff i j, kind_eq_iff j k, kind_eq_iff i k)

abbrev pub kind_key : Key TokenKind
kind_key = record {
  beq = kind_eq;
  beq_refl = kind_eq_refl;
  beq_sym = kind_eq_sym;
  beq_trans = kind_eq_trans;
}

pub data PriceProvider (Decimal : Type 0) : Type 0 where
  url : ℕ → PriceProvider Decimal
  static : Decimal → PriceProvider Decimal

pub record TokenInfo (Decimal : Type 0) : Type 0 where
  pub kind : TokenKind
  pub price_provider : PriceProvider Decimal

unfoldable pub decimals : {Decimal : Type 0} → TokenInfo Decimal → ℕ
decimals info = elim info.kind [ native ↦ 18 | erc20 address places ↦ places ]
