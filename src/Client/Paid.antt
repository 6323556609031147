-- ===== src/Client/Paid.antt =====
-- What the calls of a deposit and a new account of crates/shielder-cli/src/shielder_ops transfer.
use zk_os_monorepo.Base.{ℕ, ◌<◌, ◌^◌, ◌≡◌, ◌≢◌, ap, ◌∙◌, some, List, arith, Option-cases, inl, inr}
use zk_os_monorepo.Base.Word.{u256_mod, add256, sub256}
use zk_os_monorepo.Outcome.{ok}
use zk_os_monorepo.Setup.ProtocolFee.{compute_protocol_fee_from_net}
use zk_os_monorepo.Conversions.{
  address_to_field, field_to_address, Field, IsCanonical, u256_to_field, field_to_u256,
}
use zk_os_monorepo.Conversions.Roundtrip.{
  field_to_u256-u256_to_field, field_to_address-address_to_field,
}
use zk_os_monorepo.Token.{
  Token, native, erc20, native_address, address, from_address, from_address-address,
}
use zk_os_monorepo.Account.State.{ShielderAccount, Hashes}
use zk_os_monorepo.Calls.Types.{
  NewAccountCall, NewAccountNativeCall, NewAccountErc20Call, DepositCall, DepositNativeCall,
  DepositErc20Call, new_account_native_try_from, new_account_erc20_try_from,
  deposit_native_try_from, deposit_erc20_try_from,
}
use zk_os_monorepo.Calls.Knowledge.{
  Circuits, NewAccountProverKnowledge, DepositProverKnowledge, NewAccountCallExtra, DepositExtra,
  prepare_new_account, prepare_deposit,
}
use zk_os_monorepo.Client.Deposit.{Receipt, DepositWorld, send_deposit, send_new_account}

pub fee_lt :
    (amount bps fee : ℕ) → compute_protocol_fee_from_net amount bps ≡ some fee → fee < u256_mod
unfolding compute_protocol_fee_from_net
fee_lt amount bps fee h = ground arith

-- The fee comes off again, even if the sum wrapped.
pub sub256-add256 : (a b : ℕ) → a < u256_mod → b < u256_mod → sub256 (add256 a b) b ≡ a
unfolding sub256 add256
sub256-add256 a b h k = omega arith

module _ {Fr : Type 0} (world : DepositWorld Fr) where
  -- The chain took a deposit of as much of the token: the value of a native call, or the amount that
  -- an ERC20 call names.
  abbrev pub IsDeposited : Token → ℕ → Type 0
  IsDeposited native paid =
      (call : DepositNativeCall) × (receipt : Receipt) × (world.deposit_native call paid
        ≡ some receipt)
  IsDeposited (erc20 a) paid =
      (call : DepositErc20Call) × (receipt : Receipt) × (call.token_address ≡ a)
      × (call.amount ≡ paid)
      × (world.deposit_erc20 call ≡ some receipt)

  -- The same for the first deposit of a new account.
  abbrev pub IsOpened : Token → ℕ → Type 0
  IsOpened native paid =
      (call : NewAccountNativeCall) × (receipt : Receipt) × (world.new_account_native call paid
        ≡ some receipt)
  IsOpened (erc20 a) paid =
      (call : NewAccountErc20Call) × (receipt : Receipt) × (call.token_address ≡ a)
      × (call.amount ≡ paid)
      × (world.new_account_erc20 call ≡ some receipt)

  deposit_call :
      (call : DepositCall) (converted : DepositErc20Call) (a : ℕ)
      → call.token ≡ erc20 a
      → deposit_erc20_try_from call ≡ some converted
      → (converted.token_address ≡ a) × (converted.amount ≡ call.amount)
  unfolding deposit_erc20_try_from
  deposit_call call converted a e h = ground (arith, e, h)

  new_account_call :
      (call : NewAccountCall) (converted : NewAccountErc20Call) (a : ℕ)
      → call.token ≡ erc20 a
      → new_account_erc20_try_from call ≡ some converted
      → (converted.token_address ≡ a) × (converted.amount ≡ call.amount)
  unfolding new_account_erc20_try_from
  new_account_call call converted a e h = ground (arith, e, h)

  pub send_deposit-IsDeposited :
      (call : DepositCall) (token : Token) (paid : ℕ) (receipt : Receipt)
      → call.token ≡ token
      → call.amount ≡ paid
      → send_deposit world call token paid ≡ ok receipt
      → IsDeposited token paid
  unfolding send_deposit
  send_deposit-IsDeposited call native paid receipt t a h =
      elim (Option-cases (deposit_native_try_from call)) [
        | inl e ↦ absurd (ground (arith, e, h))
        | inr (converted, e) ↦ elim (Option-cases (world.deposit_native converted paid)) [
          | inl s ↦ absurd (ground (arith, e, s, h))
          | inr (r, s) ↦ (converted, r, s)
        ]
      ]
  send_deposit-IsDeposited call (erc20 x) paid receipt t a h =
      elim (Option-cases (deposit_erc20_try_from call)) [
        | inl e ↦ absurd (ground (arith, e, h))
        | inr (converted, e) ↦ elim (Option-cases (world.deposit_erc20 converted)) [
          | inl s ↦ absurd (ground (arith, e, s, h))
          | inr (r, s) ↦
              let (same, amounts) = deposit_call call converted x t e in
              (converted, r, same, amounts ∙ a, s)
        ]
      ]

  pub send_new_account-IsOpened :
      (call : NewAccountCall) (token : Token) (paid : ℕ) (receipt : Receipt)
      → call.token ≡ token
      → call.amount ≡ paid
      → send_new_account world call token paid ≡ ok receipt
      → IsOpened token paid
  unfolding send_new_account
  send_new_account-IsOpened call native paid receipt t a h =
      elim (Option-cases (new_account_native_try_from call)) [
        | inl e ↦ absurd (ground (arith, e, h))
        | inr (converted, e) ↦ elim (Option-cases (world.new_account_native converted paid)) [
          | inl s ↦ absurd (ground (arith, e, s, h))
          | inr (r, s) ↦ (converted, r, s)
        ]
      ]
  send_new_account-IsOpened call (erc20 x) paid receipt t a h =
      elim (Option-cases (world.approve_erc20 x)) [
        | inl p ↦ absurd (ground (arith, p, h))
        | inr (approved, p) ↦ elim (Option-cases (new_account_erc20_try_from call)) [
          | inl e ↦ absurd (ground (arith, p, e, h))
          | inr (converted, e) ↦ elim (Option-cases (world.new_account_erc20 converted)) [
            | inl s ↦ absurd (ground (arith, p, e, s, h))
            | inr (r, s) ↦
                let (same, amounts) = new_account_call call converted x t e in
                (converted, r, same, amounts ∙ a, s)
          ]
        ]
      ]

module _ (f : Field) {modulus : ℕ} (c : IsCanonical f modulus) (h : Hashes f)
    (keccak : List ℕ → List ℕ) (circuits : Circuits f) where
  token_back :
      (token : Token)
      → token ≢ erc20 native_address
      → address token < 2 ^ 160
      → from_address (field_to_address f (address_to_field f (address token))) ≡ token
  token_back token special wide =
      ap from_address (field_to_address-address_to_field f c (address token) wide)
      ∙ from_address-address token special

  amount_back :
      (amount fee : ℕ)
      → amount < 2 ^ 128
      → fee < u256_mod
      → add256 (field_to_u256 f (u256_to_field f (sub256 (add256 amount fee) fee))) fee
        ≡ add256 amount fee
  amount_back amount fee small fits =
      ap (λ n. add256 (field_to_u256 f (u256_to_field f n)) fee)
        (sub256-add256 amount fee (omega arith) fits)
      ∙ ap (λ n. add256 n fee)
          (field_to_u256-u256_to_field f c amount (omega (arith, c.above_addresses)))

  -- The calls that the two operations prepare name the token, and the amount with the fee.
  pub prepare_deposit_names :
      (prove : DepositProverKnowledge f.Fr → List ℕ) (account : ShielderAccount) (token : Token)
      (amount : ℕ) (extra : DepositExtra)
      → token ≢ erc20 native_address
      → address token < 2 ^ 160
      → amount < 2 ^ 128
      → extra.protocol_fee < u256_mod
      → (let call =
            prepare_deposit f h keccak circuits prove account token
              (add256 amount extra.protocol_fee)
              extra in
          (call.token ≡ token) × (call.amount ≡ add256 amount extra.protocol_fee))
  unfolding prepare_deposit
  prepare_deposit_names prove account token amount extra special wide small fits =
      (token_back token special wide, amount_back amount extra.protocol_fee small fits)

  pub prepare_new_account_names :
      (prove : NewAccountProverKnowledge f.Fr → List ℕ) (account : ShielderAccount) (token : Token)
      (amount : ℕ) (extra : NewAccountCallExtra)
      → token ≢ erc20 native_address
      → address token < 2 ^ 160
      → amount < 2 ^ 128
      → extra.protocol_fee < u256_mod
      → (let call =
            prepare_new_account f h keccak circuits prove account token
              (add256 amount extra.protocol_fee)
              extra in
          (call.token ≡ token) × (call.amount ≡ add256 amount extra.protocol_fee))
  unfolding prepare_new_account
  prepare_new_account_names prove account token amount extra special wide small fits =
      (token_back token special wide, amount_back amount extra.protocol_fee small fits)
