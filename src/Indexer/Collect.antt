-- ===== src/Indexer/Collect.antt =====
-- `run` of crates/ar-cli/src/collect_viewing_keys.rs, with the tables of src/db.rs that it writes. The
-- table of keys is a list without repetitions, and the database does not fail; what a run wrote stays
-- when it fails. The node, the field of the keys and the decryption (shielder_circuits) are
-- parameters; a transaction carries what alloy decodes of it.
use mathlib.Core.List.{reverse}
use zk_os_monorepo.Base.{
  ℕ, zero, suc, ◌+◌, ◌-◌, Bool, false, ◌||◌, Option, none, some, List, [], ◌∷◌, ◌++◌, length, max,
  ◌==◌, if◌then◌else◌,
}
use zk_os_monorepo.Base.Bytes.{bytes_eq}
use zk_os_monorepo.Conversions.{Field, u256_to_field}
use zk_os_monorepo.Calls.Types.{Point}

unfoldable pub contains : List ℕ → List (List ℕ) → Bool
contains key [] = false
contains key (k ∷ keys) = bytes_eq k key || contains key keys

unfoldable pub upsert_viewing_key : List (List ℕ) → List ℕ → List (List ℕ)
upsert_viewing_key keys key = if contains key keys then keys else keys ++ key ∷ []

-- The keys, and the checkpoint's one row.
pub record KeyDatabase : Type 0 where
  pub viewing_keys : List (List ℕ)
  pub checkpoint : Option ℕ

unfoldable pub last_seen_block : KeyDatabase → ℕ
last_seen_block db = elim db.checkpoint [ none ↦ 0 | some n ↦ n ]

pub data CollectError : Type 0 where
  provider_error key_file_error not_a_field_element : CollectError

-- `symKeyEncryptionC1X` to `C2Y` of a call.
abbrev pub Ciphertext : Type 0
Ciphertext = Point × Point

-- The receiver, and the call as newAccountNative and as newAccountERC20, if it decodes so.
pub record Transaction : Type 0 where
  pub to : Option ℕ
  pub new_account_native : Option Ciphertext
  pub new_account_erc20 : Option Ciphertext

pub record Node : Type 0 where
  pub get_block_number : Option ℕ
  -- `none` for an error; then the block, if there is one, and its transactions, if they are full.
  pub get_block_by_number : ℕ → Option (Option (Option (List Transaction)))

-- The private key is 32 bytes, the whole file.
unfoldable pub private_key_bytes : Option (List ℕ) → Option (List ℕ)
private_key_bytes none = none
private_key_bytes (some content) = if length content == 32 then some content else none

unfoldable pub is_call_of : ℕ → Transaction → Bool
is_call_of shielder_address tx = elim tx.to [ none ↦ false | some to ↦ to == shielder_address ]

module _ (f : Field) {Scalar : Type 0} (scalar_from_bytes : List ℕ → Option Scalar)
    (decrypt : f.Fr × f.Fr → f.Fr × f.Fr → Scalar → f.Fr) where
  -- The key of a ciphertext: the x coordinate of what it decrypts to.
  unfoldable pub decode : Scalar → Ciphertext → List ℕ
  decode private_key (c1, c2) = f.to_repr (
      decrypt (u256_to_field f c1.x, u256_to_field f c1.y)
        (u256_to_field f c2.x, u256_to_field f c2.y) private_key)

  unfoldable pub decode_and_persist : Scalar → List (List ℕ) → Option Ciphertext → List (List ℕ)
  unfolding upsert_viewing_key
  decode_and_persist private_key keys none = keys
  decode_and_persist private_key keys (some ciphertext) =
      upsert_viewing_key keys (decode private_key ciphertext)

  unfoldable pub collect_transaction : ℕ → Scalar → List (List ℕ) → Transaction → List (List ℕ)
  unfolding is_call_of decode_and_persist
  collect_transaction shielder_address private_key keys tx =
      if is_call_of shielder_address tx
      then decode_and_persist private_key
          (decode_and_persist private_key keys tx.new_account_native) tx.new_account_erc20
      else keys

  unfoldable pub collect_transactions :
      ℕ → Scalar → List (List ℕ) → List Transaction → List (List ℕ)
  unfolding collect_transaction
  collect_transactions shielder_address private_key keys [] = keys
  collect_transactions shielder_address private_key keys (tx ∷ txs) =
      collect_transactions shielder_address private_key
        (collect_transaction shielder_address private_key keys tx) txs

  -- The transactions that are read of a block.
  abbrev pub transactions_of : Option (Option (List Transaction)) → List Transaction
  transactions_of none = []
  transactions_of (some none) = []
  transactions_of (some (some txs)) = txs

  module _ (node : Node) (shielder_address : ℕ) (private_key : Scalar) where
    -- The loop over as many blocks, from one on.
    unfoldable pub collect_blocks : ℕ → ℕ → KeyDatabase → KeyDatabase × Option CollectError
    collect_blocks zero block_number db = (db, none)
    collect_blocks (suc count) block_number db = elim (node.get_block_by_number block_number) [
      | none ↦ (db, some provider_error)
      | some block ↦ collect_blocks count (block_number + 1) (record {
        viewing_keys =
            collect_transactions shielder_address private_key db.viewing_keys
              (transactions_of block);
        checkpoint = some block_number;
      })
    ]

  unfoldable pub collect_keys :
      Node → ℕ → Option (List ℕ) → ℕ → KeyDatabase → KeyDatabase × Option CollectError
  unfolding last_seen_block private_key_bytes
  collect_keys node shielder_address private_key_file from_block db = elim node.get_block_number [
    | none ↦ (db, some provider_error)
    | some last_finalized_block ↦ elim (private_key_bytes private_key_file) [
      | none ↦ (db, some key_file_error)
      | some bytes ↦ elim (scalar_from_bytes (reverse bytes)) [
        | none ↦ (db, some not_a_field_element)
        | some private_key ↦
            let first = max from_block (last_seen_block db) in
            collect_blocks node shielder_address private_key (last_finalized_block + 1 - first)
              first db
      ]
    ]
  ]
