-- ===== src/Indexer/Revoke.antt =====
-- `run` of crates/ar-cli/src/revoke.rs and `blob_to_field` of src/common.rs. A table is an
-- association list, as in the indexer.
use zk_os_monorepo.Base.{ℕ, ◌==◌, Bool, Option, none, some, List, [], ◌∷◌, length, if◌then◌else◌}
use zk_os_monorepo.Base.Assoc.{number_key, upsert}
use zk_os_monorepo.Indexer.{Event, Step, field_conversion}

-- The field `Fr` of shielder_circuits, its test for equality, its reading of a representation, which
-- fails unless it is canonical, and the hash of the commitments.
pub record Poseidon : Type 1 where
  pub Fr : Type 0
  pub eq : Fr → Fr → Bool
  pub from_bytes : List ℕ → Option Fr
  pub hash : List Fr → Fr

module _ (p : Poseidon) where
  unfoldable pub blob_to_field : List ℕ → Option p.Fr
  blob_to_field blob = if length blob == 32 then p.from_bytes blob else none

  -- The loop over the keys: the first that gives the commitment, and none on a failed conversion.
  unfoldable pub find_key : p.Fr → List ℕ → List (List ℕ) → Option (Option (List ℕ))
  find_key commitment mac_salt [] = some none
  find_key commitment mac_salt (key ∷ keys) =
      let rest = find_key commitment mac_salt keys in
      elim (blob_to_field mac_salt) [
        | none ↦ none
        | some salt ↦ elim (blob_to_field key) [
          | none ↦ none
          | some k ↦ if p.eq commitment (p.hash (salt ∷ k ∷ [])) then some (some key) else rest
        ]
      ]

  -- What the loop over the events does for one of them to the table.
  unfoldable pub revoke_event :
      List (List ℕ) → List (ℕ × Event) → ℕ → Event → Step (List (ℕ × Event))
  unfolding find_key
  revoke_event keys table tx_hash event = elim event.viewing_key [
    | some _ ↦ (table, none)
    | none ↦ elim (blob_to_field event.mac_commitment) [
      | none ↦ (table, some field_conversion)
      | some commitment ↦ elim (find_key commitment event.mac_salt keys) [
        | none ↦ (table, some field_conversion)
        | some none ↦ (table, none)
        | some (some key) ↦
            let row = record event { viewing_key = some key } in
            (upsert number_key tx_hash (λ _. row) row table, none)
      ]
    ]
  ]

  unfoldable pub revoke_events :
      List (List ℕ) → List (ℕ × Event) → List (ℕ × Event) → Step (List (ℕ × Event))
  revoke_events keys table [] = (table, none)
  revoke_events keys table ((tx_hash, event) ∷ events) =
      let step = revoke_event keys table tx_hash event in
      let rest = revoke_events keys step.0 events in
      elim step.1 [ some e ↦ (step.0, some e) | none ↦ rest ]

  -- The events are read once, before the loop.
  unfoldable pub revoke : List (List ℕ) → List (ℕ × Event) → Step (List (ℕ × Event))
  unfolding revoke_events
  revoke keys events = revoke_events keys events events
