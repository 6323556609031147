-- ===== src/Indexer/Indexed.antt =====
-- What a run of crates/ar-cli/src/index_events.rs leaves in the database.
use zk_os_monorepo.Base.{
  ℕ, zero, suc, ◌+◌, ◌-◌, ◌%◌, ◌≤◌, ◌<◌, ◌≡◌, refl, ap, sym, ◌∙◌, Option, none, some, List, [], ◌∷◌,
  ◌++◌, min, max, leb, arith, Option-cases, Bool-cases, inl, inr,
}
use zk_os_monorepo.Base.Word.{u64_mod}
use zk_os_monorepo.Base.Blocks.{logs_of, logs_of-add}
use zk_os_monorepo.Conversions.{Field}
use zk_os_monorepo.Indexer.{
  Event, Database, Log, query_checkpoint, process_log, process_logs, index_from, index_events,
}

module _ (f : Field) where
  process_logs-append :
      (events : List (ℕ × Event)) (xs ys : List Log)
      → process_logs f events (xs ++ ys) ≡ (
          let step = process_logs f events xs in
          elim step.1 [ some e ↦ (step.0, some e) | none ↦ process_logs f step.0 ys ])
  unfolding process_logs
  process_logs-append events [] ys = refl
  process_logs-append events (x ∷ xs) ys =
      let step = process_log f events x in
      elim (Option-cases step.1) [
        | inl e ↦ ground (arith, e, process_logs-append step.0 xs ys)
        | inr (error, e) ↦ ground (arith, e)
      ]

  process_logs-nil : (events : List (ℕ × Event)) → process_logs f events [] ≡ (events, none)
  unfolding process_logs
  process_logs-nil events = refl

  module _ (blocks : ℕ → List Log) where
    process_logs-split :
        (block last height : ℕ) (before events : List (ℕ × Event))
        → block ≤ last
        → last ≤ height
        → process_logs f before (logs_of blocks block (height + 1 - block)) ≡ (events, none)
        → (let step = process_logs f before (logs_of blocks block (last + 1 - block)) in
            (step.1 ≡ none)
            × (process_logs f step.0 (logs_of blocks (last + 1) (height + 1 - (last + 1)))
                ≡ (events, none)))
    process_logs-split block last height before events from to p =
        let batch = logs_of blocks block (last + 1 - block) in
        let rest = logs_of blocks (last + 1) (height + 1 - (last + 1)) in
        let parts =
          logs_of-add blocks block (last + 1 - block) (height + 1 - (last + 1)) (last + 1)
            (height + 1 - block) (omega arith) (omega arith) in
        let split =
          sym (ap (process_logs f before) parts ∙ process_logs-append before batch rest) ∙ p in
        elim (Option-cases (process_logs f before batch).1) [
          | inr (error, e) ↦ absurd (ground (arith, e, split))
          | inl e ↦ (e, ground (arith, e, split))
        ]

    module _ (get_logs : ℕ → ℕ → Option (List Log))
        (answers : (a b : ℕ) → a ≤ b → get_logs a b ≡ some (logs_of blocks a (b + 1 - a))) where
      index_from-past :
          (fuel block height batch_size : ℕ) (db : Database)
          → 0 < fuel
          → height < block
          → index_from f get_logs fuel block height batch_size db ≡ (db, none)
      unfolding index_from
      index_from-past zero block height batch_size db few past = absurd (omega arith)
      index_from-past (suc fuel) block height batch_size db few past = ground arith

      index_from_lem :
          (fuel block height batch_size : ℕ) (db : Database) (events : List (ℕ × Event))
          → 0 < batch_size
          → height + batch_size < u64_mod
          → block ≤ height
          → height + 1 - block < fuel
          → process_logs f db.events (logs_of blocks block (height + 1 - block)) ≡ (events, none)
          → index_from f get_logs fuel block height batch_size db
            ≡ (record { events = events; checkpoint = some height }, none)
      unfolding index_from
      index_from_lem zero block height batch_size db events pos room le few p = absurd (omega arith)
      index_from_lem (suc fuel) block height batch_size db events pos room le few p =
          let end = ((block + batch_size) % u64_mod + u64_mod - 1) % u64_mod in
          let exact : end ≡ block + batch_size - 1 = omega arith in
          let last = min end height in
          let batch = answers block last (omega arith) in
          let step = process_logs f db.events (logs_of blocks block (last + 1 - block)) in
          let (e, all) =
            process_logs-split block last height db.events events (omega arith) (omega arith) p in
          let next : Database = record { events = step.0; checkpoint = some last } in
          elim (Bool-cases (leb (last + 1) height)) [
            | inl more ↦
                (let below : last + 1 ≤ height = ground arith in
                  let after : last + 1 ≡ block + batch_size = omega arith in
                  let later =
                    index_from_lem fuel (block + batch_size) height batch_size next events pos room
                      (omega arith) (omega arith)
                      (ap (λ k. process_logs f step.0 (logs_of blocks k (height + 1 - k)))
                          (sym after)
                        ∙ all) in
                  ground (arith, batch, e, later))
            | inr no_more ↦
                (let above : height < last + 1 = ground arith in
                  let at_end : last ≡ height = omega arith in
                  let none_left =
                    ap (λ n. process_logs f step.0 (logs_of blocks (last + 1) n))
                      {x = height + 1 - (last + 1)} {y = 0} (omega arith) in
                  let same = sym all ∙ none_left ∙ process_logs-nil step.0 in
                  let stop =
                    index_from-past fuel (block + batch_size) height batch_size next (omega arith)
                      (omega arith) in
                  ground (arith, batch, e, at_end, same, stop))
          ]

  -- Let a node answer each range of blocks with the logs of its blocks in order, and let the first
  -- block to index, which is the greater of the given one and the checkpoint, be at most the current
  -- height, which is at least a batch below 2 ^ 64, of a batch size that is not zero. If the logs of
  -- these blocks, read once and in order, give some events without an error, then a run ends without
  -- an error, leaves these events, and moves the checkpoint to the current height.
  pub index_events_lem :
      (blocks : ℕ → List Log) (get_logs : ℕ → ℕ → Option (List Log))
      (height from_block batch_size : ℕ) (db : Database) (events : List (ℕ × Event))
      → ((a b : ℕ) → a ≤ b → get_logs a b ≡ some (logs_of blocks a (b + 1 - a)))
      → 0 < batch_size
      → height + batch_size < u64_mod
      → max from_block (query_checkpoint db) ≤ height
      → (let first = max from_block (query_checkpoint db) in
          process_logs f db.events (logs_of blocks first (height + 1 - first)) ≡ (events, none))
      → index_events f get_logs (some height) from_block batch_size db
        ≡ (record { events = events; checkpoint = some height }, none)
  unfolding index_events
  index_events_lem blocks get_logs height from_block batch_size db events answers pos room le p =
      let run =
        index_from_lem blocks get_logs answers (height + 2) (max from_block (query_checkpoint db))
          height batch_size db events pos room le (omega arith) p in
      ground (arith, run)
