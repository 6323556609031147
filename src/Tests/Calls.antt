-- ===== src/Tests/Calls.antt =====
-- A call at a concrete input.
use zk_os_monorepo.Base.{[]}
use zk_os_monorepo.Setup.Version.{contract_version, to_bytes}
use zk_os_monorepo.Token.{erc20}
use zk_os_monorepo.Calls.Types.{WithdrawCall}

abbrev pub withdrawal : WithdrawCall
withdrawal = record {
  amount = 40;
  token = erc20 5;
  expected_contract_version = to_bytes contract_version;
  withdrawal_address = 11;
  relayer_address = 12;
  merkle_root = 13;
  old_nullifier_hash = 14;
  new_note = 15;
  relayer_fee = 3;
  mac_salt = 16;
  mac_commitment = 17;
  proof = [];
  pocket_money = 0;
  memo = [];
}
