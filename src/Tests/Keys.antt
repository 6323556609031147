-- ===== src/Tests/Keys.antt =====
-- Keys of the anonymity revoker: a chain of two kinds of blocks, collected and then used.
use zk_os_monorepo.Base.{
  ℕ, ◌+◌, ◌≡◌, refl, true, Option, none, some, List, [], ◌∷◌, replicate, ◌++◌, ◌||◌, if◌then◌else◌,
  ltb, arith,
}
use zk_os_monorepo.Base.Assoc.{number_key, lookup}
use zk_os_monorepo.Base.Blocks.{logs_of}
use zk_os_monorepo.Base.Bytes.{bytes_eq, to_le_bytes, from_le_bytes}
use zk_os_monorepo.Conversions.{u256_to_field}
use zk_os_monorepo.Indexer.{Event}
use zk_os_monorepo.Indexer.Collect.{
  contains, upsert_viewing_key, KeyDatabase, last_seen_block, Ciphertext, Transaction, Node,
  is_call_of, decode, decode_and_persist, collect_transaction, collect_transactions,
  transactions_of, collect_blocks, collect_keys, private_key_bytes,
}
use zk_os_monorepo.Indexer.Collected.{sealed_in, collect_keys_lem}
use zk_os_monorepo.Indexer.Revealed.{revoke-collect_keys}
use zk_os_monorepo.Indexer.Revoke.{revoke, revoke_events, revoke_event, find_key, blob_to_field}
use zk_os_monorepo.Indexer.Revoked.{opens}
use zk_os_monorepo.Tests.Fixtures.{fr}
use zk_os_monorepo.Tests.Indexer.{poseidon, event_of}

abbrev scalar_from_bytes : List ℕ → Option ℕ
scalar_from_bytes bytes = some (from_le_bytes bytes)

-- A decryption that takes the first coordinate.
abbrev decrypt : ℕ × ℕ → ℕ × ℕ → ℕ → ℕ
decrypt c1 c2 key = c1.0

abbrev ciphertext : ℕ → Ciphertext
ciphertext key = (record { x = key; y = 1 }, record { x = 2; y = 3 })

abbrev blocks : ℕ → Option (Option (List Transaction))
blocks n =
    if ltb n 5
    then none
    else some (
        some (
          record { to = none; new_account_native = none; new_account_erc20 = none }
          ∷ record {
            to = some 77;
            new_account_native = none;
            new_account_erc20 = some (ciphertext (n + 2));
          }
          ∷ []))

abbrev node : Node
node = record { get_block_number = some 5; get_block_by_number = λ n. some (blocks n) }

abbrev key_file : List ℕ
key_file = replicate 31 0 ++ 9 ∷ []

abbrev stored : KeyDatabase
stored = record { viewing_keys = to_le_bytes 32 5 ∷ []; checkpoint = some 3 }

collect_keys_lem_example :
    (let after = collect_keys fr scalar_from_bytes decrypt node 77 (some key_file) 4 stored in
      (after.1 ≡ none)
      × (after.0.checkpoint ≡ some 5)
      × ((k : List ℕ)
          → contains k after.0.viewing_keys ≡ (
              contains k stored.viewing_keys
              || sealed_in fr scalar_from_bytes decrypt 77 9 k
                  (logs_of (λ n. transactions_of fr scalar_from_bytes decrypt (blocks n)) 4 2))))
unfolding last_seen_block from_le_bytes
collect_keys_lem_example =
    collect_keys_lem fr scalar_from_bytes decrypt 77 9 node blocks (λ n. refl) 5 4 key_file stored
      refl refl refl (omega arith)

-- The commitment of the key 7 and the salt 2 is 23.
abbrev events : List (ℕ × Event)
events = (101, event_of 23 none) ∷ (102, event_of 31 none) ∷ []

abbrev keys : List (List ℕ)
keys = (collect_keys fr scalar_from_bytes decrypt node 77 (some key_file) 4 stored).0.viewing_keys

revoke-collect_keys_example :
    (k : List ℕ) × (opens poseidon (event_of 23 none) k ≡ true)
    × (lookup number_key 101 (revoke poseidon keys events).0
        ≡ some (record (event_of 23 none) { viewing_key = some k }))
unfolding last_seen_block is_call_of decode to_le_bytes bytes_eq blob_to_field from_le_bytes revoke
    revoke_events revoke_event find_key lookup collect_keys collect_blocks collect_transactions
    collect_transaction decode_and_persist upsert_viewing_key contains private_key_bytes
    u256_to_field
revoke-collect_keys_example =
    revoke-collect_keys poseidon fr scalar_from_bytes decrypt 77 9 node blocks 5 4 key_file stored
      events 101 (event_of 23 none) (to_le_bytes 32 7) keys (λ n. refl) refl refl refl (omega arith)
      refl (refl, (refl, tt)) refl refl refl refl refl
