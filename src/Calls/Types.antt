-- ===== src/Calls/Types.antt =====
-- The call structures of crates/shielder-account/src/call_data.rs, the Solidity calls that they are
-- turned into, and the conversions. Byte strings are lists of bytes; `none` is `CallTypeConversionError`.
use zk_os_monorepo.Base.{ℕ, Option, none, some, List}
use zk_os_monorepo.Setup.Version.{Bytes3}
use zk_os_monorepo.Token.{Token, native, erc20}

-- GrumpkinPointAffine<U256>
pub record Point : Type 0 where
  pub x : ℕ
  pub y : ℕ

pub record NewAccountCall : Type 0 where
  pub amount : ℕ
  pub token : Token
  pub expected_contract_version : Bytes3
  pub new_note : ℕ
  pub prenullifier : ℕ
  pub sym_key_encryption_c1 : Point
  pub sym_key_encryption_c2 : Point
  pub mac_salt : ℕ
  pub mac_commitment : ℕ
  pub proof : List ℕ
  pub memo : List ℕ

pub record NewAccountNativeCall : Type 0 where
  pub expected_contract_version : Bytes3
  pub new_note : ℕ
  pub prenullifier : ℕ
  pub sym_key_encryption_c1x : ℕ
  pub sym_key_encryption_c1y : ℕ
  pub sym_key_encryption_c2x : ℕ
  pub sym_key_encryption_c2y : ℕ
  pub mac_salt : ℕ
  pub mac_commitment : ℕ
  pub proof : List ℕ
  pub memo : List ℕ

pub record NewAccountErc20Call : Type 0 where
  pub expected_contract_version : Bytes3
  pub token_address : ℕ
  pub amount : ℕ
  pub new_note : ℕ
  pub prenullifier : ℕ
  pub sym_key_encryption_c1x : ℕ
  pub sym_key_encryption_c1y : ℕ
  pub sym_key_encryption_c2x : ℕ
  pub sym_key_encryption_c2y : ℕ
  pub mac_salt : ℕ
  pub mac_commitment : ℕ
  pub proof : List ℕ
  pub memo : List ℕ

pub record DepositCall : Type 0 where
  pub amount : ℕ
  pub token : Token
  pub expected_contract_version : Bytes3
  pub old_nullifier_hash : ℕ
  pub new_note : ℕ
  pub merkle_root : ℕ
  pub mac_salt : ℕ
  pub mac_commitment : ℕ
  pub proof : List ℕ
  pub memo : List ℕ

pub record DepositNativeCall : Type 0 where
  pub expected_contract_version : Bytes3
  pub old_nullifier_hash : ℕ
  pub new_note : ℕ
  pub merkle_root : ℕ
  pub mac_salt : ℕ
  pub mac_commitment : ℕ
  pub proof : List ℕ
  pub memo : List ℕ

pub record DepositErc20Call : Type 0 where
  pub expected_contract_version : Bytes3
  pub token_address : ℕ
  pub amount : ℕ
  pub old_nullifier_hash : ℕ
  pub new_note : ℕ
  pub merkle_root : ℕ
  pub mac_salt : ℕ
  pub mac_commitment : ℕ
  pub proof : List ℕ
  pub memo : List ℕ

pub record WithdrawCall : Type 0 where
  pub amount : ℕ
  pub token : Token
  pub expected_contract_version : Bytes3
  pub withdrawal_address : ℕ
  pub relayer_address : ℕ
  pub merkle_root : ℕ
  pub old_nullifier_hash : ℕ
  pub new_note : ℕ
  pub relayer_fee : ℕ
  pub mac_salt : ℕ
  pub mac_commitment : ℕ
  pub proof : List ℕ
  pub pocket_money : ℕ
  pub memo : List ℕ

pub record WithdrawNativeCall : Type 0 where
  pub expected_contract_version : Bytes3
  pub amount : ℕ
  pub withdrawal_address : ℕ
  pub merkle_root : ℕ
  pub old_nullifier_hash : ℕ
  pub new_note : ℕ
  pub proof : List ℕ
  pub relayer_address : ℕ
  pub relayer_fee : ℕ
  pub mac_salt : ℕ
  pub mac_commitment : ℕ
  pub memo : List ℕ

pub record WithdrawErc20Call : Type 0 where
  pub expected_contract_version : Bytes3
  pub token_address : ℕ
  pub amount : ℕ
  pub withdrawal_address : ℕ
  pub merkle_root : ℕ
  pub old_nullifier_hash : ℕ
  pub new_note : ℕ
  pub proof : List ℕ
  pub relayer_address : ℕ
  pub relayer_fee : ℕ
  pub mac_salt : ℕ
  pub mac_commitment : ℕ
  pub memo : List ℕ

-- `TryFrom<NewAccountCall> for newAccountNativeCall`
unfoldable pub new_account_native_try_from : NewAccountCall → Option NewAccountNativeCall
new_account_native_try_from c = elim c.token [
  | native ↦ some (record {
    expected_contract_version = c.expected_contract_version;
    new_note = c.new_note;
    prenullifier = c.prenullifier;
    sym_key_encryption_c1x = c.sym_key_encryption_c1.x;
    sym_key_encryption_c1y = c.sym_key_encryption_c1.y;
    sym_key_encryption_c2x = c.sym_key_encryption_c2.x;
    sym_key_encryption_c2y = c.sym_key_encryption_c2.y;
    mac_salt = c.mac_salt;
    mac_commitment = c.mac_commitment;
    proof = c.proof;
    memo = c.memo;
  })
  | erc20 _ ↦ none
]

-- `TryFrom<NewAccountCall> for newAccountERC20Call`
unfoldable pub new_account_erc20_try_from : NewAccountCall → Option NewAccountErc20Call
new_account_erc20_try_from c = elim c.token [
  | native ↦ none
  | erc20 token_address ↦ some (record {
    token_address = token_address;
    amount = c.amount;
    expected_contract_version = c.expected_contract_version;
    new_note = c.new_note;
    prenullifier = c.prenullifier;
    sym_key_encryption_c1x = c.sym_key_encryption_c1.x;
    sym_key_encryption_c1y = c.sym_key_encryption_c1.y;
    sym_key_encryption_c2x = c.sym_key_encryption_c2.x;
    sym_key_encryption_c2y = c.sym_key_encryption_c2.y;
    mac_salt = c.mac_salt;
    mac_commitment = c.mac_commitment;
    proof = c.proof;
    memo = c.memo;
  })
]

-- `TryFrom<DepositCall> for depositNativeCall`
unfoldable pub deposit_native_try_from : DepositCall → Option DepositNativeCall
deposit_native_try_from c = elim c.token [
  | native ↦ some (record {
    expected_contract_version = c.expected_contract_version;
    old_nullifier_hash = c.old_nullifier_hash;
    new_note = c.new_note;
    merkle_root = c.merkle_root;
    mac_salt = c.mac_salt;
    mac_commitment = c.mac_commitment;
    proof = c.proof;
    memo = c.memo;
  })
  | erc20 _ ↦ none
]

-- `TryFrom<DepositCall> for depositERC20Call`
unfoldable pub deposit_erc20_try_from : DepositCall → Option DepositErc20Call
deposit_erc20_try_from c = elim c.token [
  | native ↦ none
  | erc20 token_address ↦ some (record {
    expected_contract_version = c.expected_contract_version;
    token_address = token_address;
    amount = c.amount;
    old_nullifier_hash = c.old_nullifier_hash;
    new_note = c.new_note;
    merkle_root = c.merkle_root;
    mac_salt = c.mac_salt;
    mac_commitment = c.mac_commitment;
    proof = c.proof;
    memo = c.memo;
  })
]

-- `TryFrom<WithdrawCall> for withdrawNativeCall`
unfoldable pub withdraw_native_try_from : WithdrawCall → Option WithdrawNativeCall
withdraw_native_try_from c = elim c.token [
  | native ↦ some (record {
    expected_contract_version = c.expected_contract_version;
    amount = c.amount;
    withdrawal_address = c.withdrawal_address;
    merkle_root = c.merkle_root;
    old_nullifier_hash = c.old_nullifier_hash;
    new_note = c.new_note;
    proof = c.proof;
    relayer_address = c.relayer_address;
    relayer_fee = c.relayer_fee;
    mac_salt = c.mac_salt;
    mac_commitment = c.mac_commitment;
    memo = c.memo;
  })
  | erc20 _ ↦ none
]

-- `TryFrom<WithdrawCall> for withdrawERC20Call`
unfoldable pub withdraw_erc20_try_from : WithdrawCall → Option WithdrawErc20Call
withdraw_erc20_try_from c = elim c.token [
  | native ↦ none
  | erc20 token_address ↦ some (record {
    expected_contract_version = c.expected_contract_version;
    token_address = token_address;
    amount = c.amount;
    withdrawal_address = c.withdrawal_address;
    merkle_root = c.merkle_root;
    old_nullifier_hash = c.old_nullifier_hash;
    new_note = c.new_note;
    proof = c.proof;
    relayer_address = c.relayer_address;
    relayer_fee = c.relayer_fee;
    mac_salt = c.mac_salt;
    mac_commitment = c.mac_commitment;
    memo = c.memo;
  })
]
