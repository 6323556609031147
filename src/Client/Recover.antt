-- ===== src/Client/Recover.antt =====
-- `recover_state` of crates/shielder-cli/src/recovery.rs. Poseidon, of the crate shielder_circuits, is
-- a parameter; the loop runs on fuel.
use zk_os_monorepo.Base.{
  ℕ, ◌<◌, ◌≡◌, Option, none, some, List, length, arith, Option-cases, inl, inr,
}
use zk_os_monorepo.Base.Assoc.{number_key, lookup, upsert, lookup-upsert, equal_refl}
use zk_os_monorepo.Outcome.{Outcome, ok, or_panic, ◌>>=◌}
use zk_os_monorepo.Conversions.{Field, u256_to_field, field_to_u256}
use zk_os_monorepo.Token.{Token, address}
use zk_os_monorepo.Account.Action.{ShielderAction}
use zk_os_monorepo.Account.State.{ShielderAccount, Hashes, new, previous_nullifier}
use zk_os_monorepo.Recovery.{Node, RecoveryError, recover}
use zk_os_monorepo.Recovery.Loop.{Holds, Holds-recover}
use zk_os_monorepo.Client.{ClientState, account_of, ensure_account_exist}

module _ (f : Field) (h : Hashes f) (keccak : List ℕ → List ℕ) (poseidon : f.Fr → f.Fr) where
  unfoldable pub expected_nullifier_hash : ShielderAccount → ℕ
  expected_nullifier_hash account =
      field_to_u256 f (poseidon (u256_to_field f (previous_nullifier f h keccak account)))

  unfoldable pub recover_state :
      Node → (Token → ℕ) → ℕ → ClientState → Token → Option ℕ → Outcome RecoveryError ClientState
  recover_state node default_zkid_seed fuel state token zkid_seed = do
    let ensured = ensure_account_exist f h keccak default_zkid_seed state token zkid_seed
    account ← or_panic (account_of ensured token)
    last ← recover node expected_nullifier_hash fuel account
    ok (record ensured {
      accounts = upsert number_key (address token) (λ _. last) last ensured.accounts;
    })

  -- The account that recovery starts from.
  abbrev pub start_account : (Token → ℕ) → ClientState → Token → Option ℕ → ShielderAccount
  start_account default_zkid_seed state token zkid_seed = elim (account_of state token) [
    | some account ↦ account
    | none ↦
        new f h keccak (elim zkid_seed [ none ↦ default_zkid_seed token | some seed ↦ seed ]) token
  ]

  ensured_lem :
      (default_zkid_seed : Token → ℕ) (state : ClientState) (token : Token) (zkid_seed : Option ℕ)
      → account_of (ensure_account_exist f h keccak default_zkid_seed state token zkid_seed) token
        ≡ some (start_account default_zkid_seed state token zkid_seed)
  unfolding account_of ensure_account_exist
  ensured_lem default_zkid_seed state token zkid_seed =
      let seed : ℕ = elim zkid_seed [ none ↦ default_zkid_seed token | some seed ↦ seed ] in
      let added =
        lookup-upsert number_key (address token) (address token) (λ account. account)
          (new f h keccak seed token) state.accounts in
      elim (Option-cases (lookup number_key (address token) state.accounts)) [
        | inl e ↦ ground (arith, e, added, equal_refl (address token))
        | inr (account, e) ↦ ground (arith, e, added, equal_refl (address token))
      ]

  -- Let the chain hold some actions from the account of the token on, or from a new one if there is
  -- none, up to a last account. With fuel for one more request than there are actions, recovery
  -- succeeds, without a panic, and the account of the token is then the last one.
  pub recover_state_lem :
      (node : Node) (default_zkid_seed : Token → ℕ) (fuel : ℕ) (state : ClientState) (token : Token)
      (zkid_seed : Option ℕ) (last : ShielderAccount) (actions : List ShielderAction)
      → Holds node expected_nullifier_hash
          (start_account default_zkid_seed state token zkid_seed)
          actions
          last
      → length actions < fuel
      → (next : ClientState) × (recover_state node default_zkid_seed fuel state token zkid_seed
          ≡ ok next)
        × (account_of next token ≡ some last)
  unfolding recover_state account_of ensure_account_exist
  recover_state_lem node default_zkid_seed fuel state token zkid_seed last actions held enough =
      let start = start_account default_zkid_seed state token zkid_seed in
      let ensured = ensure_account_exist f h keccak default_zkid_seed state token zkid_seed in
      let opened : lookup number_key (address token) ensured.accounts ≡ some start =
        ensured_lem default_zkid_seed state token zkid_seed in
      let ran = Holds-recover node expected_nullifier_hash fuel held enough in
      let found =
        lookup-upsert number_key (address token) (address token) (λ _. last) last
          ensured.accounts in
      (
        record ensured {
          accounts = upsert number_key (address token) (λ _. last) last ensured.accounts;
        },
        rw opened (rw ran),
        ground (arith, found, opened, equal_refl (address token)),
      )
