-- ===== src/Client/Withdrawn.antt =====
-- What a withdrawal of crates/shielder-cli/src/shielder_ops/withdraw.rs takes from the account.
use mathlib.Core.Option.{some-injective}
use mathlib.Core.Path.{subst}
use zk_os_monorepo.Base.{
  ℕ, ◌+◌, ◌-◌, ◌≤◌, ◌<◌, ◌≡◌, ap, sym, ◌∙◌, some, List, arith, Option-cases, inl, inr,
}
use zk_os_monorepo.Base.Word.{u256_mod, add256, add256-exact, checked_sub256}
use zk_os_monorepo.Base.Assoc.{number_key, lookup-upsert, equal_refl}
use zk_os_monorepo.Outcome.{
  or_panic, ok_or, guard, ok, AllOk-bind, AllOk-intro, AllOk-elim, or_panic-ok, ok_or-ok,
}
use zk_os_monorepo.Setup.ProtocolFee.{
  max_bps, compute_protocol_fee_from_gross, compute_protocol_fee_from_net,
}
use zk_os_monorepo.Setup.FeeRounding.{gross-net}
use zk_os_monorepo.Conversions.{Field}
use zk_os_monorepo.Token.{Token, address}
use zk_os_monorepo.Account.Action.{ShielderAction}
use zk_os_monorepo.Account.State.{ShielderAccount, Hashes, register_action, apply_amount}
use zk_os_monorepo.Calls.Knowledge.{Circuits}
use zk_os_monorepo.Relayer.Service.{QuoteFeeResponse}
use zk_os_monorepo.Client.{
  ClientState, relayer_unhealthy, quote_refused, relay_refused, provider_error, account_of,
  register, remembered,
}
use zk_os_monorepo.Client.Deposit.{tx_data}
use zk_os_monorepo.Client.Credited.{balance_of}
use zk_os_monorepo.Client.Withdraw.{
  WithdrawWorld, get_block_hash, gross_amount, prepare_relayer_query, withdraw,
}

-- What is taken when the amounts add up below 2 ^ 256: the net amount and the fee, which is the fee
-- that the contract computes for what is taken, for a rate below 10000 basis points; and no more than
-- the account holds.
pub gross_amount_lem :
    (net bps shielded_amount gross fee : ℕ)
    → bps < max_bps
    → net + fee < u256_mod
    → gross_amount net bps shielded_amount ≡ ok (gross, fee)
    → (gross ≡ net + fee)
      × (gross ≤ shielded_amount)
      × (compute_protocol_fee_from_gross gross bps ≡ some fee)
unfolding gross_amount
gross_amount_lem net bps shielded_amount gross fee rate room h =
    elim (Option-cases (compute_protocol_fee_from_net net bps)) [
      | inl e ↦ absurd (ground (arith, e))
      | inr (computed, e) ↦
          let exact = add256-exact net fee room in
          let same : computed ≡ fee = ground (arith, e) in
          let charged = gross-net net bps fee rate room in ground (arith, e, same, exact, charged)
    ]

gross_amount-le :
    (net bps shielded_amount gross fee : ℕ)
    → gross_amount net bps shielded_amount ≡ ok (gross, fee)
    → (compute_protocol_fee_from_net net bps ≡ some fee)
      × (gross ≡ add256 net fee)
      × (gross ≤ shielded_amount)
unfolding gross_amount
gross_amount-le net bps shielded_amount gross fee h = ground arith

register_action-takes :
    (account after : ShielderAccount) (to gross note_index tx_hash fee : ℕ) (token : Token)
    → register_action account
        (ShielderAction.withdraw to (tx_data gross note_index tx_hash token fee))
      ≡ some after
    → after.shielded_amount ≡ account.shielded_amount - gross
unfolding register_action apply_amount checked_sub256
register_action-takes account after to gross note_index tx_hash fee token h = ground arith

register_takes :
    (state next : ClientState) (token : Token) (account : ShielderAccount)
    (to gross note_index tx_hash fee : ℕ)
    → account_of state token ≡ some account
    → register state token (ShielderAction.withdraw to (tx_data gross note_index tx_hash token fee))
      ≡ ok next
    → balance_of next token ≡ some (account.shielded_amount - gross)
unfolding register account_of
register_takes state next token account to gross note_index tx_hash fee e h =
    let action = ShielderAction.withdraw to (tx_data gross note_index tx_hash token fee) in
    elim (Option-cases (register_action account action)) [
      | inl r ↦ absurd (ground (arith, e, r))
      | inr (after, r) ↦ ground (
        arith,
        e,
        r,
        lookup-upsert number_key (address token) (address token) (λ _. after) after state.accounts,
        equal_refl (address token),
        register_action-takes account after to gross note_index tx_hash fee token r,
      )
    ]

module _ (f : Field) (h : Hashes f) (keccak : List ℕ → List ℕ) (circuits : Circuits f)
    {Decimal : Type 0} (world : WithdrawWorld f.Fr Decimal) where
  -- The quote and the fee of a withdrawal, and what it leaves of the balance.
  pub record IsWithdrawn (state next : ClientState) (amount : ℕ) (token : Token)
      (pocket_money before : ℕ) : Type 0 where
    pub quoted : QuoteFeeResponse Decimal
    pub bps : ℕ
    pub fee : ℕ
    pub gross : ℕ
    pub relayer_quoted : world.quote_fees token pocket_money ≡ some quoted
    pub rate : remembered state.protocol_fees.withdraw_fee world.protocol_withdraw_fee_bps ≡ ok bps
    pub fee_computed :
        compute_protocol_fee_from_net (add256 amount quoted.fee_details.total_cost_fee_token) bps
        ≡ some fee
    pub taken : gross ≡ add256 (add256 amount quoted.fee_details.total_cost_fee_token) fee
    pub covered : gross ≤ before
    pub left : balance_of next token ≡ some (before - gross)

  -- A withdrawal that succeeds takes from the account the amount, the total fee that the relayer
  -- quoted for the token and the pocket money, and the protocol fee on both at the remembered rate or
  -- else the node's, summed as the code sums them, modulo 2 ^ 256; the account held at least that.
  pub withdraw-IsWithdrawn :
      (state next : ClientState) (account : ShielderAccount) (amount to : ℕ) (token : Token)
      (pocket_money : ℕ) (memo : List ℕ)
      → account_of state token ≡ some account
      → withdraw f h keccak circuits world state amount to token pocket_money memo ≡ ok next
      → IsWithdrawn state next amount token pocket_money account.shielded_amount
  unfolding withdraw account_of
  withdraw-IsWithdrawn state next account amount to token pocket_money memo has =
      let P = λ (s : ClientState).
        IsWithdrawn state s amount token pocket_money account.shielded_amount in
      AllOk-elim P _ next (
        AllOk-bind P (guard world.relayer_is_healthy relayer_unhealthy) _ (λ _ _.
          AllOk-bind P (ok_or (world.quote_fees token pocket_money) quote_refused) _ (λ quoted q.
            AllOk-bind P
              (remembered state.protocol_fees.withdraw_fee world.protocol_withdraw_fee_bps) _
              (λ bps r. AllOk-bind P (or_panic (account_of state token)) _ (λ found a.
                AllOk-bind P
                  (gross_amount (add256 amount quoted.fee_details.total_cost_fee_token) bps
                    found.shielded_amount)
                  _
                  (λ charged c.
                    AllOk-bind P
                      (prepare_relayer_query f h keccak circuits world found charged.0 to token
                        quoted pocket_money charged.1 memo)
                      _
                      (λ query _.
                        AllOk-bind P (ok_or (world.relay query) relay_refused) _ (λ tx_hash _.
                          AllOk-bind P (get_block_hash world.get_transaction_receipt tx_hash 5) _
                            (λ block_hash _.
                              AllOk-bind P
                                (ok_or (world.event_note_index tx_hash block_hash) provider_error) _
                                (λ note_index _. AllOk-intro P _ (λ s registered.
                                  let has_found = or_panic-ok (account_of state token) found a in
                                  let same : found ≡ account =
                                    some-injective _ _ (sym has_found ∙ has) in
                                  let paid =
                                    gross_amount-le
                                      (add256 amount quoted.fee_details.total_cost_fee_token) bps
                                      found.shielded_amount charged.0 charged.1 c in
                                  let rest =
                                    register_takes
                                      (record state {
                                        protocol_fees = record state.protocol_fees {
                                          withdraw_fee = some bps;
                                        };
                                      })
                                      s token found to charged.0 note_index tx_hash charged.1
                                      has_found registered in
                                  record {
                                    quoted = quoted;
                                    bps = bps;
                                    fee = charged.1;
                                    gross = charged.0;
                                    relayer_quoted =
                                        ok_or-ok (world.quote_fees token pocket_money) quote_refused
                                          quoted q;
                                    rate = r;
                                    fee_computed = paid.0;
                                    taken = paid.1;
                                    covered =
                                        subst (λ x. charged.0 ≤ x.shielded_amount) same paid.2;
                                    left =
                                        rest ∙ ap (λ x. some (x.shielded_amount - charged.0)) same;
                                  })))))))))))
