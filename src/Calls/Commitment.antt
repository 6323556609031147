-- ===== src/Calls/Commitment.antt =====
-- The commitments of crates/shielder-contract/src/lib.rs: a Keccak hash of the packed fields, of
-- which the low four bits are dropped. Keccak-256, of the crate alloy, is a parameter.
use zk_os_monorepo.Base.{ℕ, ◌/◌, ◌<◌, ◌^◌, ◌%◌, List, [], ◌∷◌, ◌++◌, arith}
use zk_os_monorepo.Base.Word.{u256_mod}
use zk_os_monorepo.Base.Bytes.{to_be_bytes, from_be_bytes}
use zk_os_monorepo.Conversions.{address_to_u256}
use zk_os_monorepo.Setup.Version.{ContractVersion, Bytes3, to_bytes}
use zk_os_monorepo.Account.Secrets.{field_modulus}

pub record WithdrawCommitment : Type 0 where
  pub contract_version : ContractVersion
  pub withdraw_address : ℕ
  pub relayer_address : ℕ
  pub relayer_fee : ℕ
  pub chain_id : ℕ
  pub pocket_money : ℕ
  pub protocol_fee : ℕ
  pub memo : List ℕ

pub record NewAccountCommitment : Type 0 where
  pub caller_address : ℕ
  pub protocol_fee : ℕ

pub record DepositCommitment : Type 0 where
  pub caller_address : ℕ
  pub protocol_fee : ℕ

-- `abi_encode_packed` of a uint256 and of a bytes3.
abbrev word : ℕ → List ℕ
word n = to_be_bytes 32 n

abbrev bytes3 : Bytes3 → List ℕ
bytes3 b = b.byte0 ∷ b.byte1 ∷ b.byte2 ∷ []

unfoldable pub withdraw_packed : WithdrawCommitment → List ℕ
withdraw_packed c =
    bytes3 (to_bytes c.contract_version)
    ++ (word (address_to_u256 c.withdraw_address)
        ++ (word (address_to_u256 c.relayer_address)
            ++ (word c.relayer_fee
                ++ (word c.chain_id ++ (word c.pocket_money ++ (word c.protocol_fee ++ c.memo))))))

unfoldable pub caller_packed : ℕ → ℕ → List ℕ
caller_packed caller_address protocol_fee =
    word (address_to_u256 caller_address) ++ word protocol_fee

module _ (keccak : List ℕ → List ℕ) where
  -- `let hash: U256 = keccak256(..).into(); hash >> 4`
  unfoldable pub shifted_hash : List ℕ → ℕ
  shifted_hash packed = from_be_bytes (keccak packed) % u256_mod / 2 ^ 4

  unfoldable pub withdraw_commitment_hash : WithdrawCommitment → ℕ
  unfolding shifted_hash withdraw_packed
  withdraw_commitment_hash c = shifted_hash (withdraw_packed c)

  unfoldable pub new_account_commitment_hash : NewAccountCommitment → ℕ
  unfolding shifted_hash caller_packed
  new_account_commitment_hash c = shifted_hash (caller_packed c.caller_address c.protocol_fee)

  unfoldable pub deposit_commitment_hash : DepositCommitment → ℕ
  unfolding shifted_hash caller_packed
  deposit_commitment_hash c = shifted_hash (caller_packed c.caller_address c.protocol_fee)

  -- Whatever the hash, each of the three commitments is below the field's modulus, so that none is
  -- reduced on its way into a proof.
  pub commitment_hash-lt-field_modulus :
      (w : WithdrawCommitment) (n : NewAccountCommitment) (c : DepositCommitment)
      → (withdraw_commitment_hash w < field_modulus)
        × (new_account_commitment_hash n < field_modulus)
        × (deposit_commitment_hash c < field_modulus)
  unfolding withdraw_commitment_hash new_account_commitment_hash deposit_commitment_hash
  commitment_hash-lt-field_modulus w n c = (omega arith, omega arith, omega arith)
