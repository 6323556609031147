-- ===== src/Scan/Batches.antt =====
-- `find_referrals` and `scan_blocks` of crates/memo-scan/src/scan.rs. The node is a parameter: each
-- field is what it answers, `none` for a failure. A log carries what alloy decodes of it: `memo` is
-- none if the decoding of its data fails.
use zk_os_monorepo.Base.{
  ℕ, zero, suc, ◌+◌, ◌%◌, Option, none, some, List, [], ◌∷◌, ◌++◌, min, ltb, leb, if◌then◌else◌,
}
use zk_os_monorepo.Base.Word.{u64_mod}
use zk_os_monorepo.Outcome.{Outcome, ok, err, panic, ok_or, ◌>>=◌}
use zk_os_monorepo.Scan.Deployment.{
  Chain, ScanError, provider_error, missing_data, decode_error, start_before_deployment,
  stop_after_current, get_contract_deployment_block_num,
}

abbrev pub batch_length : ℕ
batch_length = 10000

pub data Topic : Type 0 where
  new_account_topic deposit_topic withdraw_topic other_topic : Topic

pub record Log : Type 0 where
  pub transaction_hash : Option ℕ
  pub block_number : Option ℕ
  pub topic0 : Option Topic
  pub memo : Option (List ℕ)

pub record Referral : Type 0 where
  pub block_number : ℕ
  pub transaction_hash : ℕ
  pub memo : List ℕ

-- The memo of a log of one of the three events, which must decode; other logs have none.
unfoldable pub log_memo : Log → Outcome ScanError (Option (List ℕ))
log_memo log = elim log.topic0 [
  | none ↦ ok none
  | some other_topic ↦ ok none
  | some _ ↦ elim log.memo [ none ↦ err decode_error | some memo ↦ ok (some memo) ]
]

-- One log of a batch.
unfoldable pub process_log : List Referral → Log → Outcome ScanError (List Referral)
unfolding log_memo
process_log referrals log = do
  tx_hash ← ok_or log.transaction_hash missing_data
  block_number ← ok_or log.block_number missing_data
  memo ← log_memo log
  ok (elim memo [
    | none ↦ referrals
    | some memo ↦
        referrals
        ++ record { block_number = block_number; transaction_hash = tx_hash; memo = memo } ∷ []
  ])

unfoldable pub process_logs : List Referral → List Log → Outcome ScanError (List Referral)
process_logs referrals [] = ok referrals
process_logs referrals (log ∷ logs) = process_log referrals log >>= λ next. process_logs next logs

module _ (get_logs : ℕ → ℕ → Option (List Log)) where
  -- The loop of `find_referrals`, on fuel; a loop that runs out of fuel panics.
  unfoldable pub find_referrals_from : ℕ → ℕ → ℕ → List Referral → Outcome ScanError (List Referral)
  find_referrals_from zero next_block_to_process stop_block referrals = panic
  find_referrals_from (suc fuel) next_block_to_process stop_block referrals =
      if leb next_block_to_process stop_block
      then (do
        let end_block = min ((next_block_to_process + batch_length) % u64_mod) stop_block
        raw_logs ← ok_or (get_logs next_block_to_process end_block) provider_error
        next ← process_logs referrals raw_logs
        find_referrals_from fuel ((end_block + 1) % u64_mod) stop_block next)
      else ok referrals

  unfoldable pub find_referrals : ℕ → ℕ → Outcome ScanError (List Referral)
  unfolding find_referrals_from
  find_referrals start_block stop_block =
      find_referrals_from (stop_block + 2) start_block stop_block []

pub record Node : Type 0 where
  -- What it answers during the search for the deployment.
  pub chain : Chain
  -- `get_block_number` after the search.
  pub current_block_number : Option ℕ
  pub get_logs : ℕ → ℕ → Option (List Log)

unfoldable pub check_start : Option ℕ → ℕ → Outcome ScanError ℕ
check_start none deployment = ok deployment
check_start (some num) deployment =
    if ltb num deployment then err start_before_deployment else ok num

unfoldable pub check_stop : Option ℕ → ℕ → Outcome ScanError ℕ
check_stop none current_num = ok current_num
check_stop (some num) current_num = if ltb current_num num then err stop_after_current else ok num

unfoldable pub scan_blocks : Node → ℕ → Option ℕ → Option ℕ → Outcome ScanError (List Referral)
scan_blocks node contract_address start stop = do
  deployment ← get_contract_deployment_block_num node.chain contract_address
  current_num ← ok_or node.current_block_number provider_error
  start_block ← check_start start deployment
  stop_block ← check_stop stop current_num
  find_referrals node.get_logs start_block stop_block
