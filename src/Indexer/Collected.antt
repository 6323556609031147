-- ===== src/Indexer/Collected.antt =====
-- Which keys a run of crates/ar-cli/src/collect_viewing_keys.rs leaves in the table.
use mathlib.Core.List.{reverse}
use zk_os_monorepo.Base.{
  ℕ, zero, suc, ◌+◌, ◌-◌, ◌≤◌, ◌≡◌, refl, ap, sym, Bool, false, ◌&&◌, ◌||◌, Option, none, some,
  List, [], ◌∷◌, ◌++◌, length, max, ◌==◌, if◌then◌else◌, arith, Bool-cases, inl, inr,
}
use zk_os_monorepo.Base.Blocks.{logs_of}
use zk_os_monorepo.Base.Bytes.{bytes_eq, eq_of_bytes_eq}
use zk_os_monorepo.Conversions.{Field}
use zk_os_monorepo.Indexer.Collect.{
  contains, upsert_viewing_key, KeyDatabase, last_seen_block, Ciphertext, Transaction, Node,
  is_call_of, decode, decode_and_persist, collect_transaction, collect_transactions,
  transactions_of, collect_blocks, collect_keys,
}

contains-append :
    (k x : List ℕ) (keys : List (List ℕ))
    → contains k (keys ++ x ∷ []) ≡ (bytes_eq x k || contains k keys)
unfolding contains
contains-append k x [] = refl
contains-append k x (y ∷ keys) = ground (arith, contains-append k x keys)

contains-upsert :
    (k x : List ℕ) (keys : List (List ℕ))
    → contains k (upsert_viewing_key keys x) ≡ (bytes_eq x k || contains k keys)
unfolding upsert_viewing_key
contains-upsert k x keys = elim (Bool-cases (contains x keys)) [
  | inr new ↦ ground (arith, new, contains-append k x keys)
  | inl old ↦ elim (Bool-cases (bytes_eq x k)) [
    | inr other ↦ ground (arith, old, other)
    | inl same ↦
        let there = ap (λ l. contains l keys) (sym (eq_of_bytes_eq x k same)) in
        ground (arith, old, same, there)
  ]
]

module _ (f : Field) {Scalar : Type 0} (scalar_from_bytes : List ℕ → Option Scalar)
    (decrypt : f.Fr × f.Fr → f.Fr × f.Fr → Scalar → f.Fr) (shielder_address : ℕ)
    (private_key : Scalar) where
  -- Whether a ciphertext, if there is one, decrypts to a key.
  abbrev pub seals : List ℕ → Option Ciphertext → Bool
  seals k none = false
  seals k (some c) = bytes_eq (decode f scalar_from_bytes decrypt private_key c) k

  -- Whether some of the transactions is a call of the contract with a ciphertext of a key.
  abbrev pub sealed_in : List ℕ → List Transaction → Bool
  sealed_in k [] = false
  sealed_in k (tx ∷ txs) =
      (is_call_of shielder_address tx
        && (seals k tx.new_account_native || seals k tx.new_account_erc20))
      || sealed_in k txs

  decode_and_persist_lem :
      (k : List ℕ) (keys : List (List ℕ)) (c : Option Ciphertext)
      → contains k (decode_and_persist f scalar_from_bytes decrypt private_key keys c)
        ≡ (contains k keys || seals k c)
  unfolding decode_and_persist
  decode_and_persist_lem k keys none = ground arith
  decode_and_persist_lem k keys (some c) =
      ground (arith, contains-upsert k (decode f scalar_from_bytes decrypt private_key c) keys)

  collect_transactions_lem :
      (k : List ℕ) (keys : List (List ℕ)) (txs : List Transaction)
      → contains k
          (collect_transactions f scalar_from_bytes decrypt shielder_address private_key keys txs)
        ≡ (contains k keys || sealed_in k txs)
  unfolding collect_transactions
  collect_transactions_lem k keys [] = ground arith
  collect_transactions_lem k keys (tx ∷ txs) =
      let first =
        decode_and_persist f scalar_from_bytes decrypt private_key keys tx.new_account_native in
      let next =
        collect_transaction f scalar_from_bytes decrypt shielder_address private_key keys tx in
      ground (
        arith,
        decode_and_persist_lem k keys tx.new_account_native,
        decode_and_persist_lem k first tx.new_account_erc20,
        collect_transactions_lem k next txs,
      )

  sealed_in-append :
      (k : List ℕ) (xs ys : List Transaction)
      → sealed_in k (xs ++ ys) ≡ (sealed_in k xs || sealed_in k ys)
  sealed_in-append k [] ys = refl
  sealed_in-append k (x ∷ xs) ys = ground (arith, sealed_in-append k xs ys)

  module _ (node : Node) (blocks : ℕ → Option (Option (List Transaction)))
      (answers : (n : ℕ) → node.get_block_by_number n ≡ some (blocks n)) where
    -- What is read of the blocks.
    abbrev pub read : ℕ → List Transaction
    read n = transactions_of f scalar_from_bytes decrypt (blocks n)

    collect_blocks_lem :
        (count from : ℕ) (db : KeyDatabase)
        → (let after =
              collect_blocks f scalar_from_bytes decrypt node shielder_address private_key count
                from db in
            (after.1 ≡ none)
            × (after.0.checkpoint ≡ (if count == 0 then db.checkpoint else some (from + count - 1)))
            × ((k : List ℕ)
                → contains k after.0.viewing_keys
                  ≡ (contains k db.viewing_keys || sealed_in k (logs_of read from count))))
    unfolding collect_blocks
    collect_blocks_lem zero from db = (refl, refl, λ k. ground arith)
    collect_blocks_lem (suc count) from db =
        let keys =
          collect_transactions f scalar_from_bytes decrypt shielder_address private_key
            db.viewing_keys (read from) in
        let (done, last, holds) =
          collect_blocks_lem count (from + 1)
            (record { viewing_keys = keys; checkpoint = some from }) in
        (
          ground (arith, answers from, done),
          ground (arith, answers from, last),
          λ k. ground (
            arith,
            answers from,
            holds k,
            collect_transactions_lem k db.viewing_keys (read from),
            sealed_in-append k (read from) (logs_of read (from + 1) count),
          ),
        )

    -- Let the node answer for its height and for each block, let the key file be 32 bytes that, in
    -- reverse, encode the private key, and let the first block to read be at most the height. Then a
    -- run succeeds and moves the checkpoint to the height, and the table holds exactly the keys that it
    -- held and those that some ciphertext of a call of the contract in the blocks from the first one to
    -- the height decrypts to, be the call for the native or for an ERC20 token.
    pub collect_keys_lem :
        (height from_block : ℕ) (content : List ℕ) (db : KeyDatabase)
        → node.get_block_number ≡ some height
        → length content ≡ 32
        → scalar_from_bytes (reverse content) ≡ some private_key
        → max from_block (last_seen_block db) ≤ height
        → (let first = max from_block (last_seen_block db) in
            let after =
              collect_keys f scalar_from_bytes decrypt node shielder_address
                (some content)
                from_block
                db in
            (after.1 ≡ none)
            × (after.0.checkpoint ≡ some height)
            × ((k : List ℕ)
                → contains k after.0.viewing_keys ≡ (
                    contains k db.viewing_keys
                    || sealed_in k (logs_of read first (height + 1 - first)))))
    unfolding collect_keys
    collect_keys_lem height from_block content db now long key le =
        let first = max from_block (last_seen_block db) in
        let (done, last, holds) = collect_blocks_lem (height + 1 - first) first db in
        (
          ground (arith, now, long, key, done),
          ground (arith, now, long, key, last),
          λ k. ground (arith, now, long, key, holds k),
        )
