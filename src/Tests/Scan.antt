-- ===== src/Tests/Scan.antt =====
-- A scan of nine blocks, and a flat Merkle path.
use zk_os_monorepo.Base.{
  ◌==◌, ℕ, ◌+◌, ◌-◌, ◌*◌, ◌/◌, ◌%◌, ◌≤◌, ◌≡◌, refl, ◌++◌, Option, none, some, List, [], ◌∷◌, ltb,
  if◌then◌else◌, replicate, arith,
}
use zk_os_monorepo.Base.Blocks.{logs_of}
use zk_os_monorepo.Outcome.{err}
use zk_os_monorepo.Scan.Deployment.{
  Chain, code, code_from, archival_test_query, start_before_deployment, stop_after_current,
}
use zk_os_monorepo.Scan.Batches.{deposit_topic, Log, Node, process_logs, scan_blocks}
use zk_os_monorepo.Scan.Blocks.{or_else, scan_blocks_lem}
use zk_os_monorepo.MerklePath.{arity, tree_height, reorganize_merkle_path}
use zk_os_monorepo.MerklePath.Cells.{get_elem?, cell, reorganize_merkle_path_lem}

abbrev chain : Chain
chain = record {
  get_chain_id = some 8453;
  get_code_at =
      λ address block. if address == 77 then code_from 3 (96 ∷ []) block else code (1 ∷ []);
  get_block_number = some 8;
}

abbrev blocks : ℕ → List Log
blocks block =
    record {
      transaction_hash = some (block + 100);
      block_number = some block;
      topic0 = some deposit_topic;
      memo = some (block ∷ []);
    }
    ∷ []

abbrev get_logs : ℕ → ℕ → Option (List Log)
get_logs a b = some (logs_of blocks a (b + 1 - a))

get_logs_answers : (a b : ℕ) → a ≤ b → get_logs a b ≡ some (logs_of blocks a (b + 1 - a))
get_logs_answers a b le = refl

abbrev node : Node
node = record { chain = chain; current_block_number = some 9; get_logs = get_logs }

scan_blocks_lem_example : scan_blocks node 77 none (some 7) ≡ (
    let from = or_else none 3 in
    let to = or_else (some 7) 9 in
    if ltb from 3
    then err start_before_deployment
    else if ltb 9 to
    then err stop_after_current
    else process_logs [] (logs_of blocks from (to + 1 - from)))
unfolding archival_test_query
scan_blocks_lem_example =
    scan_blocks_lem blocks node 77 8453 0x833589fCD6eDb6E08f4c7C32D4f71b54bdA02913 2797221 3 8 9 96
      1 [] [] none (some 7) refl refl refl refl refl (omega arith) (λ block le. refl)
      get_logs_answers (omega arith)

abbrev flat : List ℕ
flat = replicate 91 5 ++ 6 ∷ []

reorganize_merkle_path_lem_example :
    (root : ℕ) × (path : List (List ℕ)) × (reorganize_merkle_path flat ≡ some (root, path))
    × (get_elem? flat (arity * tree_height) ≡ some root)
    × (cell path (20 / arity) (20 % arity) ≡ get_elem? flat 20)
reorganize_merkle_path_lem_example = reorganize_merkle_path_lem flat 20 refl (omega arith)
