-- ===== src/Client/Cached.antt =====
-- The files of crates/shielder-cli/src/shielder_ops/pk.rs as a cache.
use zk_os_monorepo.Base.{none, ℕ, ◌≡◌, some, List}
use zk_os_monorepo.Client.Equipment.{CircuitType, new_account, deposit, withdraw, Files, KeyTools}

-- Parameters and keys are decoded as they were encoded, and the generation of keys returns the
-- parameters of the size that it found.
pub record IsFaithful (tools : KeyTools) : Type 0 where
  pub params_back :
      (p : tools.Params) (bytes : List ℕ)
      → tools.marshall_params p ≡ some bytes
      → tools.unmarshall_params bytes ≡ some p
  pub pk_back :
      (c : CircuitType) (k : ℕ) (pk : tools.ProvingKey)
      → tools.unmarshall_pk c (tools.marshall_pk k pk) ≡ some (k, pk)
  pub downsized :
      (c : CircuitType) (full p : tools.Params) (k : ℕ) (pk : tools.ProvingKey)
      → tools.generate_keys_with_min_k c full ≡ some (p, k, pk)
      → p ≡ tools.downsize full k

module _ (tools : KeyTools) (faithful : IsFaithful tools) where
  -- The same program without an import and without a generator of keys.
  abbrev pub offline : KeyTools
  offline = record tools {
    read_setup_parameters = none;
    generate_keys_with_min_k = λ c params. none;
  }

  -- The files of the other circuits.
  abbrev pub KeepsOthers : CircuitType → Files → Files → Type 0
  KeepsOthers new_account files after =
      (after.deposit_pk ≡ files.deposit_pk) × (after.withdraw_pk ≡ files.withdraw_pk)
  KeepsOthers deposit files after =
      (after.new_account_pk ≡ files.new_account_pk) × (after.withdraw_pk ≡ files.withdraw_pk)
  KeepsOthers withdraw files after =
      (after.new_account_pk ≡ files.new_account_pk) × (after.deposit_pk ≡ files.deposit_pk)
