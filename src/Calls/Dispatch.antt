-- ===== src/Calls/Dispatch.antt =====
-- The two conversions of each withdrawal of crates/shielder-account/src/call_data.rs.
use zk_os_monorepo.Base.{◌≡◌, ◌⊎◌, inl, inr, none, some, arith, Option-cases}
use zk_os_monorepo.Token.{native, erc20}
use zk_os_monorepo.Calls.Types.{
  WithdrawCall, WithdrawNativeCall, WithdrawErc20Call, withdraw_native_try_from,
  withdraw_erc20_try_from,
}

pub record IsNativeOf (c : WithdrawCall) (n : WithdrawNativeCall) : Type 0 where
  pub token : c.token ≡ native
  pub converts : withdraw_native_try_from c ≡ some n
  pub other : withdraw_erc20_try_from c ≡ none
  pub amount : n.amount ≡ c.amount
  pub withdrawal_address : n.withdrawal_address ≡ c.withdrawal_address
  pub old_nullifier_hash : n.old_nullifier_hash ≡ c.old_nullifier_hash
  pub new_note : n.new_note ≡ c.new_note
  pub relayer_address : n.relayer_address ≡ c.relayer_address
  pub relayer_fee : n.relayer_fee ≡ c.relayer_fee

pub record IsErc20Of (c : WithdrawCall) (e : WithdrawErc20Call) : Type 0 where
  pub token : c.token ≡ erc20 e.token_address
  pub converts : withdraw_erc20_try_from c ≡ some e
  pub other : withdraw_native_try_from c ≡ none
  pub amount : e.amount ≡ c.amount
  pub withdrawal_address : e.withdrawal_address ≡ c.withdrawal_address
  pub old_nullifier_hash : e.old_nullifier_hash ≡ c.old_nullifier_hash
  pub new_note : e.new_note ≡ c.new_note
  pub relayer_address : e.relayer_address ≡ c.relayer_address
  pub relayer_fee : e.relayer_fee ≡ c.relayer_fee

-- A withdrawal converts to exactly one of the two contract calls, chosen by its token: a native
-- call, or an ERC20 call for the token's address. Either call has the amount, the address, the
-- nullifier hash, the note, the relayer and its fee of the withdrawal.
pub withdraw_converts_once :
    (c : WithdrawCall)
    → ((n : WithdrawNativeCall) × IsNativeOf c n) ⊎ ((e : WithdrawErc20Call) × IsErc20Of c e)
unfolding withdraw_native_try_from withdraw_erc20_try_from
withdraw_converts_once c = elim (Option-cases (withdraw_native_try_from c)) [
  | inr (n, h) ↦ inl (n, ground arith)
  | inl h ↦ elim (Option-cases (withdraw_erc20_try_from c)) [
    | inr (e, k) ↦ inr (e, ground arith)
    | inl k ↦ absurd (ground arith)
  ]
]
