-- ===== src/Setup/Version.antt =====
-- Module `version` of crates/shielder-setup/lib.rs. Each byte is a number below 256.
use zk_os_monorepo.Base.{ℕ, ◌≡◌, refl, Bool, true, ◌&&◌, ◌==◌, ◌↔◌, arith}

-- FixedBytes<3>
pub record Bytes3 : Type 0 where
  pub byte0 : ℕ
  pub byte1 : ℕ
  pub byte2 : ℕ

pub record ContractVersion : Type 0 where
  pub note_version : ℕ
  pub circuit_version : ℕ
  pub patch_version : ℕ

unfoldable pub to_bytes : ContractVersion → Bytes3
to_bytes v = record { byte0 = v.note_version; byte1 = v.circuit_version; byte2 = v.patch_version }

unfoldable pub from_bytes : Bytes3 → ContractVersion
from_bytes b = record { note_version = b.byte0; circuit_version = b.byte1; patch_version = b.byte2 }

abbrev pub contract_version : ContractVersion
contract_version = record { note_version = 0; circuit_version = 1; patch_version = 1 }

-- The derived `PartialEq`.
unfoldable pub version_eq : ContractVersion → ContractVersion → Bool
version_eq v w =
    v.note_version == w.note_version
    && v.circuit_version == w.circuit_version
    && v.patch_version == w.patch_version

pub version_eq_iff : (v w : ContractVersion) → (version_eq v w ≡ true) ↔ (v ≡ w)
unfolding version_eq
version_eq_iff v w = ground arith

pub from_bytes-to_bytes : (v : ContractVersion) → from_bytes (to_bytes v) ≡ v
unfolding from_bytes to_bytes
from_bytes-to_bytes v = refl
