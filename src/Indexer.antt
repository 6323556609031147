-- ===== src/Indexer.antt =====
-- `index_events` of crates/ar-cli/src/index_events.rs, with the tables of src/db.rs that it writes. A
-- table is an association list by its primary key, and the database does not fail; what a run wrote
-- stays when it fails. The node is a parameter; a log carries what alloy decodes of it.
pub mod Indexed
pub mod Revoke
pub mod Revoked
pub mod Collect
pub mod Collected
pub mod Revealed
pub mod Retry
pub mod Reveal
pub mod Keypair
pub mod Generated
use zk_os_monorepo.Base.{
  ℕ, zero, suc, ◌+◌, ◌-◌, ◌%◌, Option, none, some, List, [], ◌∷◌, min, max, leb, ◌==◌,
  if◌then◌else◌,
}
use zk_os_monorepo.Base.Word.{u64_mod}
use zk_os_monorepo.Base.Assoc.{number_key, upsert}
use zk_os_monorepo.Conversions.{Field, u256_to_field}
use zk_os_monorepo.Account.Action.{
  ShielderContractEvents, new_account_event, deposit_event, withdraw_event,
}

pub record Event : Type 0 where
  pub block_number : ℕ
  pub mac_salt : List ℕ
  pub mac_commitment : List ℕ
  pub viewing_key : Option (List ℕ)

-- The events by transaction hash, and the checkpoint's one row.
pub record Database : Type 0 where
  pub events : List (ℕ × Event)
  pub checkpoint : Option ℕ

-- `step_by_zero` is the panic of `step_by(0)`.
pub data IndexError : Type 0 where
  missing_data decode_error provider_error step_by_zero field_conversion : IndexError

-- The event of a log with a known topic, if it decodes, or a log with another topic.
pub data LogEvent : Type 0 where
  decoded : ShielderContractEvents → LogEvent
  undecoded unknown_topic : LogEvent

pub record Log : Type 0 where
  pub transaction_hash : Option ℕ
  pub block_number : Option ℕ
  pub event : LogEvent

unfoldable pub query_checkpoint : Database → ℕ
query_checkpoint db = elim db.checkpoint [ none ↦ 0 | some last_seen_block ↦ last_seen_block ]

unfoldable pub mac_salt_of : ShielderContractEvents → ℕ
mac_salt_of (new_account_event e) = e.mac_salt
mac_salt_of (deposit_event e) = e.mac_salt
mac_salt_of (withdraw_event e) = e.mac_salt

unfoldable pub mac_commitment_of : ShielderContractEvents → ℕ
mac_commitment_of (new_account_event e) = e.mac_commitment
mac_commitment_of (deposit_event e) = e.mac_commitment
mac_commitment_of (withdraw_event e) = e.mac_commitment

-- What a step leaves behind: the state, and an error if it failed.
abbrev pub Step : Type 0 → Type 0
Step S = S × Option IndexError

module _ (f : Field) where
  unfoldable pub indexed_event : ShielderContractEvents → ℕ → Event
  indexed_event event block_number = record {
    block_number = block_number;
    mac_salt = f.to_repr (u256_to_field f (mac_salt_of event));
    mac_commitment = f.to_repr (u256_to_field f (mac_commitment_of event));
    viewing_key = none;
  }

  unfoldable pub persist_event :
      List (ℕ × Event) → ShielderContractEvents → ℕ → ℕ → List (ℕ × Event)
  unfolding indexed_event
  persist_event events event tx_hash block_number =
      let row = indexed_event event block_number in upsert number_key tx_hash (λ _. row) row events

  unfoldable pub process_log : List (ℕ × Event) → Log → Step (List (ℕ × Event))
  process_log events log = elim log.transaction_hash [
    | none ↦ (events, some missing_data)
    | some tx_hash ↦ elim log.block_number [
      | none ↦ (events, some missing_data)
      | some block_number ↦ elim log.event [
        | decoded event ↦ (persist_event events event tx_hash block_number, none)
        | undecoded ↦ (events, some decode_error)
        | unknown_topic ↦ (events, none)
      ]
    ]
  ]

  unfoldable pub process_logs : List (ℕ × Event) → List Log → Step (List (ℕ × Event))
  process_logs events [] = (events, none)
  process_logs events (log ∷ logs) =
      let step = process_log events log in
      let rest = process_logs step.0 logs in elim step.1 [ some e ↦ (step.0, some e) | none ↦ rest ]

  module _ (get_logs : ℕ → ℕ → Option (List Log)) where
    -- The loop over the first blocks of the batches, on fuel; a loop that runs out of fuel fails.
    unfoldable pub index_from : ℕ → ℕ → ℕ → ℕ → Database → Step Database
    index_from zero block_number current_height batch_size db = (db, some provider_error)
    index_from (suc fuel) block_number current_height batch_size db =
        let end = ((block_number + batch_size) % u64_mod + u64_mod - 1) % u64_mod in
        let last_batch_block = min end current_height in
        if leb block_number current_height
        then (elim (get_logs block_number last_batch_block) [
          | none ↦ (db, some provider_error)
          | some raw_logs ↦
              let step = process_logs db.events raw_logs in
              elim step.1 [
                | some e ↦ (record db { events = step.0 }, some e)
                | none ↦
                    index_from fuel (block_number + batch_size) current_height batch_size
                      (record { events = step.0; checkpoint = some last_batch_block })
              ]
        ])
        else (db, none)

    unfoldable pub index_events : Option ℕ → ℕ → ℕ → Database → Step Database
    unfolding query_checkpoint
    index_events height from_block batch_size db = elim height [
      | none ↦ (db, some provider_error)
      | some current_height ↦
          if batch_size == 0
          then (db, some step_by_zero)
          else index_from (current_height + 2) (max from_block (query_checkpoint db)) current_height
              batch_size db
    ]
