-- ===== src/Calls/Prepared.antt =====
-- What a prepared call of crates/shielder-account/src/call_data.rs says, next to its request.
use zk_os_monorepo.Base.{ℕ, ◌-◌, ◌≤◌, ◌<◌, ◌^◌, ◌≡◌, ◌≢◌, ap, ◌∙◌, List, arith}
use zk_os_monorepo.Base.Word.{u256_mod, sub256, add256, sub256-exact, add256-exact}
use zk_os_monorepo.Conversions.{Field, IsCanonical, u256_to_field, field_to_u256}
use zk_os_monorepo.Conversions.Roundtrip.{
  field_to_u256-u256_to_field, field_to_address-address_to_field,
}
use zk_os_monorepo.Token.{Token, erc20, native_address, address, from_address, from_address-address}
use zk_os_monorepo.Account.State.{ShielderAccount, Hashes}
use zk_os_monorepo.Calls.Knowledge.{
  Circuits, NewAccountProverKnowledge, DepositProverKnowledge, NewAccountCallExtra, DepositExtra,
  prepare_new_account, prepare_deposit,
}

module _ (f : Field) {modulus : ℕ} (c : IsCanonical f modulus) where
  gross_amount :
      (amount fee : ℕ)
      → fee ≤ amount
      → amount < u256_mod
      → amount - fee < modulus
      → add256 (field_to_u256 f (u256_to_field f (sub256 amount fee))) fee ≡ amount
  gross_amount amount fee le fits below =
      ap (λ n. add256 (field_to_u256 f (u256_to_field f n)) fee) (sub256-exact amount fee le fits)
      ∙ ap (λ n. add256 n fee) (field_to_u256-u256_to_field f c (amount - fee) below)
      ∙ add256-exact (amount - fee) fee (omega arith)
      ∙ omega arith

module _ (f : Field) {modulus : ℕ} (c : IsCanonical f modulus) (h : Hashes f)
    (keccak : List ℕ → List ℕ) (circuits : Circuits f) where
  -- A prepared new account and a prepared deposit ask the contract for exactly the requested amount
  -- and token, although both went through the field: for a fee of at most the amount, an amount
  -- whose rest after the fee is below the modulus, an address of 160 bits, and any token but an
  -- ERC20 token at the native address.
  pub prepared_deposits :
      (prove_new : NewAccountProverKnowledge f.Fr → List ℕ)
      (prove_deposit : DepositProverKnowledge f.Fr → List ℕ) (account : ShielderAccount)
      (token : Token) (amount : ℕ) (extra_new : NewAccountCallExtra) (extra_deposit : DepositExtra)
      → token ≢ erc20 native_address
      → address token < 2 ^ 160
      → amount < u256_mod
      → extra_new.protocol_fee ≤ amount
      → extra_deposit.protocol_fee ≤ amount
      → amount - extra_new.protocol_fee < modulus
      → amount - extra_deposit.protocol_fee < modulus
      → (let n = prepare_new_account f h keccak circuits prove_new account token amount extra_new in
          let d =
            prepare_deposit f h keccak circuits prove_deposit account token amount extra_deposit in
          (n.amount ≡ amount) × (n.token ≡ token) × (d.amount ≡ amount) × (d.token ≡ token))
  unfolding prepare_new_account prepare_deposit
  prepared_deposits prove_new prove_deposit account token amount extra_new extra_deposit special
        wide fits le_new le_deposit below_new below_deposit =
      let same =
        ap from_address (field_to_address-address_to_field f c (address token) wide)
        ∙ from_address-address token special in
      (
        gross_amount f c amount extra_new.protocol_fee le_new fits below_new,
        same,
        gross_amount f c amount extra_deposit.protocol_fee le_deposit fits below_deposit,
        same,
      )
