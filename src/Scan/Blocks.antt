-- ===== src/Scan/Blocks.antt =====
-- What a scan of crates/memo-scan/src/scan.rs finds: each block of the range, once and in order.
use zk_os_monorepo.Base.{
  ℕ, zero, suc, ◌+◌, ◌-◌, ◌%◌, ◌≤◌, ◌<◌, ◌≡◌, refl, ap, ◌∙◌, Option, none, some, List, [], ◌∷◌,
  ◌++◌, min, leb, ltb, if◌then◌else◌, arith, inl, inr, Bool-cases,
}
use zk_os_monorepo.Base.Blocks.{logs_of, logs_of-add}
use zk_os_monorepo.Base.Word.{u64_mod}
use zk_os_monorepo.Outcome.{ok, err, ◌>>=◌, Outcome-cases}
use zk_os_monorepo.Scan.Deployment.{
  code, code_from, archival_test_query, start_before_deployment, stop_after_current,
  get_contract_deployment_block_num_lem,
}
use zk_os_monorepo.Scan.Batches.{
  batch_length, Log, Referral, process_log, process_logs, find_referrals_from, find_referrals, Node,
  scan_blocks, check_start, check_stop,
}

-- An optional bound, or its default.
abbrev pub or_else : Option ℕ → ℕ → ℕ
or_else none n = n
or_else (some m) n = m

check_start_lem :
    (start : Option ℕ) (deployment : ℕ)
    → check_start start deployment ≡ (
        if ltb (or_else start deployment) deployment
        then err start_before_deployment
        else ok (or_else start deployment))
unfolding check_start
check_start_lem none deployment = ground arith
check_start_lem (some num) deployment = ground arith

check_stop_lem :
    (stop : Option ℕ) (current_num : ℕ)
    → check_stop stop current_num ≡ (
        if ltb current_num (or_else stop current_num)
        then err stop_after_current
        else ok (or_else stop current_num))
unfolding check_stop
check_stop_lem none current_num = ground arith
check_stop_lem (some num) current_num = ground arith

process_logs-nil : (referrals : List Referral) → process_logs referrals [] ≡ ok referrals
unfolding process_logs
process_logs-nil referrals = refl

process_logs-append :
    (referrals : List Referral) (xs ys : List Log)
    → process_logs referrals (xs ++ ys) ≡ process_logs referrals xs >>= λ next. process_logs next ys
unfolding process_logs
process_logs-append referrals [] ys = refl
process_logs-append referrals (x ∷ xs) ys = elim (Outcome-cases (process_log referrals x)) [
  | inl (next, e) ↦ ground (arith, e, process_logs-append next xs ys)
  | inr (inl (x, e)) ↦ ground (arith, e)
  | inr (inr e) ↦ ground (arith, e)
]

module _ (blocks : ℕ → List Log) where
  module _ (get_logs : ℕ → ℕ → Option (List Log))
      (answers : (a b : ℕ) → a ≤ b → get_logs a b ≡ some (logs_of blocks a (b + 1 - a))) where
    find_lem :
        (fuel next stop : ℕ) (referrals : List Referral)
        → stop + batch_length < u64_mod
        → stop + 1 - next < fuel
        → find_referrals_from get_logs fuel next stop referrals
          ≡ process_logs referrals (logs_of blocks next (stop + 1 - next))
    unfolding find_referrals_from
    find_lem zero next stop referrals room f = absurd (omega arith)
    find_lem (suc fuel) next stop referrals room f = elim (Bool-cases (leb next stop)) [
      | inr e ↦
          (let above : stop < next = ground arith in
            let nothing : stop + 1 - next ≡ 0 = omega arith in
            ground (
              arith,
              e,
              ap (λ n. process_logs referrals (logs_of blocks next n)) nothing,
              process_logs-nil referrals,
            ))
      | inl e ↦
          (let below : next ≤ stop = ground arith in
            let end = min ((next + batch_length) % u64_mod) stop in
            let after : (end + 1) % u64_mod ≡ end + 1 = omega arith in
            let parts =
              logs_of-add blocks next (end + 1 - next) (stop + 1 - (end + 1)) (end + 1)
                (stop + 1 - next) (omega arith) (omega arith) in
            let batch = answers next end (omega arith) in
            let batch_logs = logs_of blocks next (end + 1 - next) in
            let rest = logs_of blocks (end + 1) (stop + 1 - (end + 1)) in
            let split =
              ap (process_logs referrals) parts ∙ process_logs-append referrals batch_logs rest in
            elim (Outcome-cases (process_logs referrals batch_logs)) [
              | inl (acc, p) ↦
                  let later = find_lem fuel (end + 1) stop acc room (omega arith) in
                  ground (arith, batch, after, split, p, later)
              | inr (inl (x, p)) ↦ ground (arith, batch, after, split, p)
              | inr (inr p) ↦ ground (arith, batch, after, split, p)
            ])
    ]

  -- Let a node answer each range of blocks with the logs of its blocks in order. Then a scan from one
  -- block to another, which is at least a batch below 2 ^ 64, ends, and finds what the logs of the
  -- range give when each block is read once, in order: the batches leave out no block and read none
  -- twice, and the first bad log makes the scan fail.
  pub find_referrals_lem :
      (get_logs : ℕ → ℕ → Option (List Log)) (start_block stop_block : ℕ)
      → ((a b : ℕ) → a ≤ b → get_logs a b ≡ some (logs_of blocks a (b + 1 - a)))
      → stop_block + batch_length < u64_mod
      → find_referrals get_logs start_block stop_block
        ≡ process_logs [] (logs_of blocks start_block (stop_block + 1 - start_block))
  unfolding find_referrals
  find_referrals_lem get_logs start_block stop_block answers room =
      find_lem get_logs answers (stop_block + 2) start_block stop_block [] room (omega arith)

  -- If the node knows the code of the test contract of its chain, has the contract's code, which is not
  -- empty, exactly from a block on that is at most the search's height, and answers each range with the
  -- logs of its blocks, then a scan refuses a start before the deployment and a stop after the current
  -- block, and else finds what the logs of its range give when each block is read once, in order; a
  -- missing start is the deployment, a missing stop the current block, which is at least a batch below
  -- 2 ^ 64.
  pub scan_blocks_lem :
      (node : Node)
      (contract_address chain_id test_address test_block deployment height current : ℕ)
      (b test_b : ℕ) (bytes test_bytes : List ℕ) (start stop : Option ℕ)
      → node.chain.get_chain_id ≡ some chain_id
      → archival_test_query chain_id ≡ some (test_address, test_block)
      → node.chain.get_code_at test_address test_block ≡ code (test_b ∷ test_bytes)
      → node.chain.get_block_number ≡ some height
      → node.current_block_number ≡ some current
      → deployment ≤ height
      → ((block : ℕ)
          → block ≤ height
          → node.chain.get_code_at contract_address block ≡ code_from deployment (b ∷ bytes) block)
      → ((a b : ℕ) → a ≤ b → node.get_logs a b ≡ some (logs_of blocks a (b + 1 - a)))
      → current + batch_length < u64_mod
      → scan_blocks node contract_address start stop ≡ (
          let from = or_else start deployment in
          let to = or_else stop current in
          if ltb from deployment
          then err start_before_deployment
          else if ltb current to
          then err stop_after_current
          else process_logs [] (logs_of blocks from (to + 1 - from)))
  unfolding scan_blocks
  scan_blocks_lem node contract_address chain_id test_address test_block deployment height current b
        test_b bytes test_bytes start stop id query test searched now exists codes answers room =
      let found =
        get_contract_deployment_block_num_lem node.chain contract_address chain_id test_block b
          height deployment test_address test_b bytes test_bytes id query test searched codes in
      let from = or_else start deployment in
      let to = or_else stop current in
      let first = check_start_lem start deployment in
      let last = check_stop_lem stop current in
      elim (Bool-cases (ltb current to)) [
        | inl late ↦ ground (arith, now, found, first, last, late)
        | inr fits ↦
            let below : to ≤ current = ground arith in
            let scanned = find_referrals_lem node.get_logs from to answers (omega arith) in
            ground (arith, now, found, first, last, fits, scanned)
      ]
