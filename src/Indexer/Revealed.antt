-- ===== src/Indexer/Revealed.antt =====
-- The tools of crates/ar-cli together: keys collected from the chain, then events revoked by them.
use mathlib.Core.List.{reverse}
use zk_os_monorepo.Base.{
  ℕ, ◌+◌, ◌-◌, ◌≤◌, ◌≡◌, ap, Bool, true, Option, none, some, List, [], ◌∷◌, length, max, arith,
  Bool-cases, inl, inr,
}
use zk_os_monorepo.Base.Assoc.{number_key, lookup, HasUniqueKeys}
use zk_os_monorepo.Base.Blocks.{logs_of}
use zk_os_monorepo.Base.Bytes.{bytes_eq, eq_of_bytes_eq}
use zk_os_monorepo.Conversions.{Field}
use zk_os_monorepo.Indexer.{Event}
use zk_os_monorepo.Indexer.Collect.{
  contains, KeyDatabase, last_seen_block, Transaction, Node, transactions_of, collect_keys,
}
use zk_os_monorepo.Indexer.Collected.{sealed_in, collect_keys_lem}
use zk_os_monorepo.Indexer.Revoke.{Poseidon, revoke}
use zk_os_monorepo.Indexer.Revoked.{opens, first_key, revoke_lem}

module _ (p : Poseidon) where
  first_key-contains :
      (test : List ℕ → Bool) (k : List ℕ) (keys : List (List ℕ))
      → contains k keys ≡ true
      → test k ≡ true
      → (k' : List ℕ) × (first_key p test keys ≡ some k') × (test k' ≡ true)
  unfolding contains
  first_key-contains test k [] h t = absurd (ground (arith, h))
  first_key-contains test k (x ∷ keys) h t = elim (Bool-cases (test x)) [
    | inl here ↦ (x, ground (arith, here), here)
    | inr not_here ↦ elim (Bool-cases (bytes_eq x k)) [
      | inl same ↦ absurd (ground (arith, not_here, t, ap test (eq_of_bytes_eq x k same)))
      | inr other ↦
          let (k', found, passes) = first_key-contains test k keys (ground (arith, other, h)) t in
          (k', ground (arith, not_here, found), passes)
    ]
  ]

  -- Let the keys be collected up to the node's height, as far as the node answers and the key file is
  -- right. If a call of the contract in the blocks that were read carries a ciphertext of some key, and
  -- an event of the table has no key yet, and its commitment is the hash of its salt and that key, then
  -- a run of the revocation that reports no error gives the event a known key that opens it, and leaves
  -- the rest of its row.
  pub revoke-collect_keys :
      (f : Field) {Scalar : Type 0} (scalar_from_bytes : List ℕ → Option Scalar)
      (decrypt : f.Fr × f.Fr → f.Fr × f.Fr → Scalar → f.Fr) (shielder_address : ℕ)
      (private_key : Scalar) (node : Node) (blocks : ℕ → Option (Option (List Transaction)))
      (height from_block : ℕ) (content : List ℕ) (db : KeyDatabase) (events : List (ℕ × Event))
      (tx_hash : ℕ) (event : Event) (key : List ℕ) (keys : List (List ℕ))
      → ((n : ℕ) → node.get_block_by_number n ≡ some (blocks n))
      → node.get_block_number ≡ some height
      → length content ≡ 32
      → scalar_from_bytes (reverse content) ≡ some private_key
      → max from_block (last_seen_block db) ≤ height
      → sealed_in f scalar_from_bytes decrypt shielder_address private_key key (
          logs_of
            (λ n. transactions_of f scalar_from_bytes decrypt (blocks n))
            (max from_block (last_seen_block db))
            (height + 1 - max from_block (last_seen_block db)))
        ≡ true
      → HasUniqueKeys number_key events
      → lookup number_key tx_hash events ≡ some event
      → event.viewing_key ≡ none
      → opens p event key ≡ true
      → keys
        ≡ (collect_keys f scalar_from_bytes decrypt node shielder_address
            (some content)
            from_block
            db).0.viewing_keys
      → (revoke p keys events).1 ≡ none
      → (k : List ℕ) × (opens p event k ≡ true)
        × (lookup number_key tx_hash (revoke p keys events).0
            ≡ some (record event { viewing_key = some k }))
  revoke-collect_keys f scalar_from_bytes decrypt shielder_address private_key node blocks height
        from_block content db events tx_hash event key keys answers now long right le sealed unique
        there fresh opened collected ran =
      let (done, last, holds) =
        collect_keys_lem f scalar_from_bytes decrypt shielder_address private_key node blocks
          answers height from_block content db now long right le in
      let known : contains key keys ≡ true = ground (arith, collected, holds key, sealed) in
      let (k, found, passes) = first_key-contains (opens p event) key keys known opened in
      let after = revoke_lem p keys events unique ran tx_hash in
      (k, passes, ground (arith, after, there, fresh, found))
