-- ===== src/Client/Equipment.antt =====
-- crates/shielder-cli/src/shielder_ops/pk.rs: the proving parameters and keys, kept in files. The disk
-- does not fail. The import of crates/powers-of-tau, and the keys and their encodings
-- (shielder_circuits), are parameters.
use zk_os_monorepo.Base.{ℕ, Option, none, some, List}
use zk_os_monorepo.Outcome.{Outcome, ok, ok_or, ◌>>=◌}

pub data CircuitType : Type 0 where
  new_account deposit withdraw : CircuitType

-- The files, if they exist.
pub record Files : Type 0 where
  pub proving_params : Option (List ℕ)
  pub new_account_pk : Option (List ℕ)
  pub deposit_pk : Option (List ℕ)
  pub withdraw_pk : Option (List ℕ)

unfoldable pub pk_file : CircuitType → Files → Option (List ℕ)
pk_file new_account files = files.new_account_pk
pk_file deposit files = files.deposit_pk
pk_file withdraw files = files.withdraw_pk

unfoldable pub save_pk : CircuitType → List ℕ → Files → Files
save_pk new_account content files = record files { new_account_pk = some content }
save_pk deposit content files = record files { deposit_pk = some content }
save_pk withdraw content files = record files { withdraw_pk = some content }

pub data KeyError : Type 0 where
  import_failed marshall_failed generation_failed : KeyError

pub record KeyTools : Type 1 where
  pub Params : Type 0
  pub ProvingKey : Type 0
  pub read_setup_parameters : Option Params
  pub marshall_params : Params → Option (List ℕ)
  pub unmarshall_params : List ℕ → Option Params
  pub downsize : Params → ℕ → Params
  pub generate_keys_with_min_k : CircuitType → Params → Option (Params × ℕ × ProvingKey)
  pub marshall_pk : ℕ → ProvingKey → List ℕ
  pub unmarshall_pk : CircuitType → List ℕ → Option (ℕ × ProvingKey)

module _ (tools : KeyTools) where
  open tools use {Params, ProvingKey}

  -- The content of a file, if it exists and decodes.
  unfoldable pub decoded : {T : Type 0} → (List ℕ → Option T) → Option (List ℕ) → Option T
  decoded unmarshall none = none
  decoded unmarshall (some bytes) = unmarshall bytes

  unfoldable pub get_params : Files → Outcome KeyError (Params × Files)
  unfolding decoded
  get_params files = elim (decoded tools.unmarshall_params files.proving_params) [
    | some full_params ↦ ok (full_params, files)
    | none ↦ do
      params ← ok_or tools.read_setup_parameters import_failed
      content ← ok_or (tools.marshall_params params) marshall_failed
      ok (params, record files { proving_params = some content })
  ]

  unfoldable pub get_equipment :
      CircuitType → Params → Files → Outcome KeyError ((Params × ProvingKey) × Files)
  unfolding decoded pk_file save_pk
  get_equipment circuit_type full_params files =
      elim (decoded (tools.unmarshall_pk circuit_type) (pk_file circuit_type files)) [
        | some (k, pk) ↦ ok ((tools.downsize full_params k, pk), files)
        | none ↦ do
          generated ←
              ok_or (tools.generate_keys_with_min_k circuit_type full_params) generation_failed
          ok (
            (generated.0, generated.2),
            save_pk circuit_type (tools.marshall_pk generated.1 generated.2) files,
          )
      ]

  unfoldable pub get_proving_equipment :
      CircuitType → Files → Outcome KeyError ((Params × ProvingKey) × Files)
  unfolding get_params get_equipment
  get_proving_equipment circuit_type files = do
    params ← get_params files
    get_equipment circuit_type params.0 params.1
