-- ===== src/Client/Credited.antt =====
-- What a deposit and a new account of crates/shielder-cli/src/shielder_ops add to the account.
use zk_os_monorepo.Client.Paid.{
  fee_lt, sub256-add256, IsDeposited, IsOpened, send_deposit-IsDeposited, send_new_account-IsOpened,
  prepare_deposit_names, prepare_new_account_names,
}
use zk_os_monorepo.Base.Options.{first}
use zk_os_monorepo.Base.{
  ◌%◌, ◌^◌, ◌≢◌, ℕ, ◌+◌, ◌<◌, ◌≡◌, ◌⊎◌, Option, some, none, List, arith, Option-cases, inl, inr,
}
use zk_os_monorepo.Base.Word.{u256_mod, add256, sub256, checked_add256}
use zk_os_monorepo.Base.Assoc.{number_key, lookup, lookup-upsert, equal_refl}
use zk_os_monorepo.Outcome.{
  ◌>>=◌, or_panic, ok_or, guard, Outcome, ok, AllOk, AllOk-bind, AllOk-intro, AllOk-elim,
  or_panic-ok, ok_or-ok,
}
use zk_os_monorepo.Setup.ProtocolFee.{compute_protocol_fee_from_net}
use zk_os_monorepo.Conversions.{Field, IsCanonical}
use zk_os_monorepo.Token.{Token, erc20, native_address, address}
use zk_os_monorepo.Account.Action.{ShielderAction, ShielderTxData}
use zk_os_monorepo.Account.State.{
  ShielderAccount, current_leaf_index, Hashes, register_action, apply_amount,
}
use zk_os_monorepo.Calls.Knowledge.{Circuits}
use zk_os_monorepo.Client.{
  ClientState, ClientError, no_equipment, provider_error, get_current_merkle_path, remembered,
  account_of, register,
}
use zk_os_monorepo.Client.Deposit.{DepositWorld, Receipt, tx_data, deposit, new_account}

abbrev pub balance_of : ClientState → Token → Option ℕ
balance_of state token = elim (account_of state token) [
  | none ↦ none
  | some account ↦ some account.shielded_amount
]

abbrev Pays : (ShielderTxData → ShielderAction) → Type 0
Pays make =
    (balance amount : ℕ) (d : ShielderTxData)
    → sub256 d.amount d.protocol_fee ≡ amount
    → (apply_amount balance (make d) ≡ none)
      ⊎ (apply_amount balance (make d) ≡ some (balance + amount))

deposit-Pays : Pays ShielderAction.deposit
unfolding apply_amount checked_add256
deposit-Pays balance amount d e = ground arith

new_account-Pays : Pays ShielderAction.new_account
unfolding apply_amount checked_add256
new_account-Pays balance amount d e = ground arith

register_action-Pays :
    (make : ShielderTxData → ShielderAction) (account after : ShielderAccount) (amount : ℕ)
    (d : ShielderTxData)
    → Pays make
    → sub256 d.amount d.protocol_fee ≡ amount
    → register_action account (make d) ≡ some after
    → after.shielded_amount ≡ account.shielded_amount + amount
unfolding register_action
register_action-Pays make account after amount d pays e h =
    elim (pays account.shielded_amount amount d e) [
      | inl n ↦ ground (arith, n)
      | inr s ↦ ground (arith, s)
    ]

register-Pays :
    (make : ShielderTxData → ShielderAction) (state next : ClientState) (token : Token)
    (before amount bps fee note_index tx_hash : ℕ)
    → Pays make
    → amount < u256_mod
    → compute_protocol_fee_from_net amount bps ≡ some fee
    → balance_of state token ≡ some before
    → register state token (make (tx_data (add256 amount fee) note_index tx_hash token fee))
      ≡ ok next
    → balance_of next token ≡ some (before + amount)
unfolding register account_of
register-Pays make state next token before amount bps fee note_index tx_hash pays small computed has
      h =
    let d = tx_data (add256 amount fee) note_index tx_hash token fee in
    elim (Option-cases (lookup number_key (address token) state.accounts)) [
      | inl e ↦ absurd (ground (arith, e))
      | inr (account, e) ↦ elim (Option-cases (register_action account (make d))) [
        | inl r ↦ absurd (ground (arith, e, r))
        | inr (after, r) ↦ ground (
          arith,
          e,
          r,
          lookup-upsert number_key (address token) (address token) (λ _. after) after
              state.accounts,
          equal_refl (address token),
          register_action-Pays make account after amount d pays
              (sub256-add256 amount fee small (fee_lt amount bps fee computed)) r,
        )
      ]
    ]

-- The rate is the one that the state remembers, or else the node's, the fee is computed from it, and the
-- chain took the amount and the fee together.
abbrev pub IsCharged :
    (state : ClientState) (node_bps : Option ℕ) (amount : ℕ) → (ℕ → Type 0) → Type 0
IsCharged state node_bps amount taken =
    (bps : ℕ) × (fee : ℕ) × (first state.protocol_fees.deposit_fee node_bps ≡ some bps)
    × (compute_protocol_fee_from_net amount bps ≡ some fee)
    × taken ((amount + fee) % u256_mod)

remembered-first :
    (known answer : Option ℕ) (bps : ℕ)
    → remembered known answer ≡ ok bps
    → first known answer ≡ some bps
unfolding remembered
remembered-first none answer bps h = ok_or-ok answer provider_error bps h
remembered-first (some b) answer bps h = ground (arith, h)

module _ (f : Field) {modulus : ℕ} (c : IsCanonical f modulus) (h : Hashes f)
    (keccak : List ℕ → List ℕ) (circuits : Circuits f) (world : DepositWorld f.Fr) where
  abbrev Credits : Token → ℕ → Type 0 → ClientState → Type 0
  Credits token balance charged next = (balance_of next token ≡ some balance) × charged

  -- The end of both operations, from the transaction on.
  settled :
      (make : ShielderTxData → ShielderAction) (known : ClientState) (token : Token)
      (before amount bps fee : ℕ) (sent : Outcome ClientError Receipt) (charged : Type 0)
      → Pays make
      → amount < u256_mod
      → compute_protocol_fee_from_net amount bps ≡ some fee
      → balance_of known token ≡ some before
      → ((receipt : Receipt) → sent ≡ ok receipt → charged)
      → AllOk (Credits token (before + amount) charged) (
          sent >>= λ receipt.
          ok_or (world.event_note_index receipt.0 receipt.1) provider_error >>= λ note_index.
          register known token (make (tx_data (add256 amount fee) note_index receipt.0 token fee)))
  settled make known token before amount bps fee sent charged pays small computed has charges =
      let P = Credits token (before + amount) charged in
      AllOk-bind P sent _ (λ receipt passed.
        AllOk-bind P (ok_or (world.event_note_index receipt.0 receipt.1) provider_error) _
          (λ note_index _. AllOk-intro P _ (λ next registered. (
            register-Pays make known next token before amount bps fee note_index receipt.0 pays
                small computed has registered,
            charges receipt passed,
          ))))

  -- For a token whose address has 160 bits and which is no ERC20 token at the native address, and an
  -- amount of 128 bits, a deposit that succeeds adds to the account exactly the amount that was asked
  -- for, and the protocol fee comes on top of it: the chain took the amount and the fee for it, modulo
  -- 2 ^ 256, at the rate that the state remembers or else the node's.
  pub deposit-credits :
      (state next : ClientState) (amount : ℕ) (token : Token) (memo : List ℕ) (before : ℕ)
      → token ≢ erc20 native_address
      → address token < 2 ^ 160
      → amount < 2 ^ 128
      → balance_of state token ≡ some before
      → deposit f h keccak circuits world state amount token memo ≡ ok next
      → (balance_of next token ≡ some (before + amount))
        × IsCharged state world.protocol_deposit_fee_bps amount (IsDeposited world token)
  unfolding deposit add256
  deposit-credits state next amount token memo before special wide small has =
      let charged =
        IsCharged state world.protocol_deposit_fee_bps amount (IsDeposited world token) in
      let P = Credits token (before + amount) charged in
      AllOk-elim P _ next (
        AllOk-bind P (or_panic (account_of state token)) _ (λ account _.
          AllOk-bind P (or_panic (current_leaf_index account)) _ (λ leaf_index _.
            AllOk-bind P (get_current_merkle_path world.get_merkle_path leaf_index) _ (λ merkle _.
              AllOk-bind P
                (remembered state.protocol_fees.deposit_fee world.protocol_deposit_fee_bps) _
                (λ bps rate.
                  AllOk-bind P (or_panic (compute_protocol_fee_from_net amount bps)) _
                    (λ protocol_fee fee.
                      let computed =
                        or_panic-ok (compute_protocol_fee_from_net amount bps) protocol_fee fee in
                      let (tokens, amounts) =
                        prepare_deposit_names f c h keccak circuits world.prove_deposit account
                          token amount
                          (record {
                            merkle_path = merkle.1;
                            mac_salt = world.mac_salt;
                            caller_address = world.caller_address;
                            protocol_fee = protocol_fee;
                            memo = memo;
                          })
                          special wide small (fee_lt amount bps protocol_fee computed) in
                      AllOk-bind P (guard world.has_equipment no_equipment) _ (λ _ _.
                        settled ShielderAction.deposit
                          (record state {
                            protocol_fees = record state.protocol_fees { deposit_fee = some bps };
                          })
                          token before amount bps protocol_fee _ charged deposit-Pays (omega arith)
                          computed (unfold account_of in has)
                          (λ receipt sent. (
                            bps,
                            protocol_fee,
                            remembered-first _ _ bps rate,
                            computed,
                            send_deposit-IsDeposited world _ token _ receipt tokens amounts sent,
                          )))))))))

  -- Under the same conditions a new account that succeeds holds the amount that was asked for beyond
  -- what the account held, and the protocol fee comes on top of it: the chain took the amount and the
  -- fee for it, modulo 2 ^ 256, at the rate that the state remembers or else the node's.
  pub new_account-credits :
      (state next : ClientState) (amount : ℕ) (token : Token) (memo : List ℕ) (before : ℕ)
      → token ≢ erc20 native_address
      → address token < 2 ^ 160
      → amount < 2 ^ 128
      → balance_of state token ≡ some before
      → new_account f h keccak circuits world state amount token memo ≡ ok next
      → (balance_of next token ≡ some (before + amount))
        × IsCharged state world.protocol_deposit_fee_bps amount (IsOpened world token)
  unfolding new_account add256
  new_account-credits state next amount token memo before special wide small has =
      let charged = IsCharged state world.protocol_deposit_fee_bps amount (IsOpened world token) in
      let P = Credits token (before + amount) charged in
      AllOk-elim P _ next (
        AllOk-bind P (ok_or world.anonymity_revoker_pubkey provider_error) _ (λ pubkey _.
          AllOk-bind P (remembered state.protocol_fees.deposit_fee world.protocol_deposit_fee_bps) _
            (λ bps rate.
              AllOk-bind P (or_panic (compute_protocol_fee_from_net amount bps)) _
                (λ protocol_fee fee. AllOk-bind P (guard world.has_equipment no_equipment) _ (λ _ _.
                  AllOk-bind P (or_panic (account_of state token)) _ (λ account _.
                    let computed =
                      or_panic-ok (compute_protocol_fee_from_net amount bps) protocol_fee fee in
                    let (tokens, amounts) =
                      prepare_new_account_names f c h keccak circuits world.prove_new account token
                        amount
                        (record {
                          anonymity_revoker_public_key = pubkey;
                          encryption_salt = world.encryption_salt;
                          mac_salt = world.mac_salt;
                          caller_address = world.caller_address;
                          protocol_fee = protocol_fee;
                          memo = memo;
                        })
                        special wide small (fee_lt amount bps protocol_fee computed) in
                    settled ShielderAction.new_account
                      (record state {
                        protocol_fees = record state.protocol_fees { deposit_fee = some bps };
                      })
                      token before amount bps protocol_fee _ charged new_account-Pays (omega arith)
                      computed (unfold account_of in has)
                      (λ receipt sent. (
                        bps,
                        protocol_fee,
                        remembered-first _ _ bps rate,
                        computed,
                        send_new_account-IsOpened world _ token _ receipt tokens amounts sent,
                      ))))))))
