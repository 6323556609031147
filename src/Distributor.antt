-- ===== src/Distributor.antt =====
-- crates/token-distributor/main.rs: a tool that makes accounts and sends each of them tokens. The chain
-- is a parameter: what it knows of its height and of balances, and a transfer that is watched. So are
-- the drawing of a signer, from a seed or from the system, and the texts of keys and addresses. A text
-- is a list of code points; the disk does not fail.
pub mod Endowed
use zk_os_monorepo.Base.{
  ℕ, zero, suc, ◌+◌, ◌*◌, ◌^◌, Bool, true, false, Option, none, some, List, [], ◌∷◌, ◌++◌, map, leb,
  if◌then◌else◌,
}
use zk_os_monorepo.Base.Word.{mul256}
use zk_os_monorepo.Base.Bytes.{to_be_bytes}

abbrev pub token_scale : ℕ
token_scale = 10 ^ 18

-- The address is that of the master's signer.
pub record Config : Type 0 where
  pub master_account : ℕ
  pub minions : ℕ
  pub bananas : ℕ
  pub deterministic_addresses : Bool

pub record Signer : Type 0 where
  pub key : List ℕ
  pub address : ℕ

pub record Chain (S : Type 0) : Type 0 where
  pub get_block_number : S → Option ℕ
  pub get_balance : S → ℕ → Option ℕ
  -- `send_transaction` and `watch`, from an address to another with a value: the chain afterwards, and
  -- whether both succeed.
  pub send_and_watch : S → ℕ → ℕ → ℕ → S × Bool

pub data DistributorError : Type 0 where
  provider_error : DistributorError
  insufficient_funds : ℕ → ℕ → DistributorError

-- The first elements of a list that is repeated without end, of which some are still to come.
unfoldable pub cycle_take : ℕ → List ℕ → List ℕ → List ℕ
cycle_take zero current whole = []
cycle_take (suc n) (x ∷ current) whole = x ∷ cycle_take n current whole
cycle_take (suc n) [] [] = []
cycle_take (suc n) [] (x ∷ whole) = x ∷ cycle_take n whole (x ∷ whole)

unfoldable pub seed : ℕ → List ℕ
unfolding cycle_take
seed id = cycle_take 32 (to_be_bytes 4 id) (to_be_bytes 4 id)

-- `join("\n")`
unfoldable pub join_lines : List (List ℕ) → List ℕ
join_lines [] = []
join_lines (line ∷ []) = line
join_lines (line ∷ next ∷ lines) = line ++ 10 ∷ join_lines (next ∷ lines)

-- The two files, if they are written.
pub record Files : Type 0 where
  pub minions_keys : Option (List ℕ)
  pub minions_addresses : Option (List ℕ)

module _ (from_seed : List ℕ → Signer) (random : ℕ → Signer) where
  -- As many minions, with the ids from some number on.
  unfoldable pub create_from : ℕ → ℕ → Bool → List Signer
  unfolding seed
  create_from zero id deterministic = []
  create_from (suc count) id deterministic =
      (if deterministic then from_seed (seed id) else random id)
      ∷ create_from count (id + 1) deterministic

  unfoldable pub create_minions : ℕ → Bool → List Signer
  unfolding create_from
  create_minions count deterministic = create_from count 0 deterministic

  module _ (key_text : List ℕ → List ℕ) (address_text : ℕ → List ℕ) where
    unfoldable pub save_minions : List Signer → Files
    unfolding join_lines
    save_minions minions = record {
      minions_keys = some (join_lines (map (λ m. key_text m.key) minions));
      minions_addresses = some (join_lines (map (λ m. address_text m.address) minions));
    }

    module _ {S : Type 0} (chain : Chain S) where
      -- `none` is success.
      unfoldable pub ensure_enough_funds : S → Config → Option DistributorError
      ensure_enough_funds s config = elim (chain.get_balance s config.master_account) [
        | none ↦ some provider_error
        | some balance ↦
            let required = mul256 (mul256 config.minions config.bananas) token_scale in
            if leb balance required then some (insufficient_funds required balance) else none
      ]

      -- Each minion is sent the amount, until a transfer fails.
      unfoldable pub endow_minions : S → Config → List Signer → S × Option DistributorError
      endow_minions s config [] = (s, none)
      endow_minions s config (minion ∷ minions) =
          let amount = mul256 config.bananas token_scale in
          let sent = chain.send_and_watch s config.master_account minion.address amount in
          let rest = endow_minions sent.0 config minions in
          if sent.1 then rest else (sent.0, some provider_error)

      -- The chain and the files afterwards.
      unfoldable pub distribute : S → Files → Config → (S × Files) × Option DistributorError
      distribute s files config = elim (chain.get_block_number s) [
        | none ↦ ((s, files), some provider_error)
        | some block_number ↦ elim (ensure_enough_funds s config) [
          | some e ↦ ((s, files), some e)
          | none ↦
              let minions = create_minions config.minions config.deterministic_addresses in
              let endowed = endow_minions s config minions in
              ((endowed.0, save_minions minions), endowed.1)
        ]
      ]
