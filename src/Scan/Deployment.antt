-- ===== src/Scan/Deployment.antt =====
-- crates/memo-scan/src/utils.rs: the test for an archival node and the search for the deployment of a
-- contract. The node is a parameter. The lower bound of the search, which
-- starts at -1, is kept as its successor, so that it is a natural number; block numbers are below
-- 2 ^ 63, where the code's conversions to i64 are exact.
use zk_os_monorepo.Base.{
  refl, List, [], ◌∷◌, ◌==◌, ℕ, zero, suc, ◌+◌, ◌-◌, ◌/◌, ◌≤◌, ◌<◌, ◌≡◌, Bool, true, false, Option,
  none, some, ltb, leb, if◌then◌else◌, arith, Bool-cases, inl, inr,
}
use zk_os_monorepo.Outcome.{Outcome, ok, err, ◌>>=◌, ◌>>◌, ok_or, guard}

pub data ScanError : Type 0 where
  provider_error unsupported_chain not_archival no_contract : ScanError
  start_before_deployment stop_after_current : ScanError
  missing_data decode_error : ScanError

-- What the node answers for the code of an address at a block: the bytes, or an error, whose text may
-- contain `missing trie node`.
pub data CodeAnswer : Type 0 where
  code : List ℕ → CodeAnswer
  missing_trie_node other_error : CodeAnswer

pub record Chain : Type 0 where
  pub get_chain_id : Option ℕ
  pub get_code_at : ℕ → ℕ → CodeAnswer
  pub get_block_number : Option ℕ

-- The inner `none` is that there is no code.
unfoldable pub get_code_at_height : Chain → ℕ → ℕ → Option (Option (List ℕ))
get_code_at_height chain address block_number = elim (chain.get_code_at address block_number) [
  | code [] ↦ some none
  | code (b ∷ bytes) ↦ some (some (b ∷ bytes))
  | missing_trie_node ↦ some none
  | other_error ↦ none
]

-- The contracts of USDT on Arbitrum One and on Ethereum, and of USDC on Base, at an early block.
unfoldable pub archival_test_query : ℕ → Option (ℕ × ℕ)
archival_test_query chain_id =
    if chain_id == 42161
    then some (0xFd086bC7CD5C481DCC9C85ebE478A1C0b69FCbb9, 228105)
    else if chain_id == 1
    then some (0xdAC17F958D2ee523a2206206994597C13D831ec7, 4634748)
    else if chain_id == 8453
    then some (0x833589fCD6eDb6E08f4c7C32D4f71b54bdA02913, 2797221)
    else none

-- `is_some` of the code.
unfoldable pub has_code : Chain → ℕ → ℕ → Option Bool
has_code chain address block_number = elim (get_code_at_height chain address block_number) [
  | none ↦ none
  | some none ↦ some false
  | some (some _) ↦ some true
]

unfoldable pub is_archival_node : Chain → Outcome ScanError Bool
is_archival_node chain = do
  chain_id ← ok_or chain.get_chain_id provider_error
  query ← ok_or (archival_test_query chain_id) unsupported_chain
  ok_or (has_code chain query.0 query.1) provider_error

module _ (code_at : ℕ → Option Bool) where
  -- The loop between `low - 1` and `high`, on fuel; a loop that runs out of fuel fails.
  unfoldable pub search : ℕ → ℕ → ℕ → Option ℕ
  search zero low high = none
  search (suc fuel) low high =
      if ltb low high
      then (let mid = (low + high - 1) / 2 in
          elim (code_at mid) [
            | none ↦ none
            | some true ↦ search fuel low mid
            | some false ↦ search fuel (mid + 1) high
          ])
      else some high

  search_lem :
      (fuel low high deployment : ℕ)
      → ((block : ℕ) → block ≤ high → code_at block ≡ some (leb deployment block))
      → low ≤ deployment
      → deployment ≤ high
      → high - low < fuel
      → search fuel low high ≡ some deployment
  unfolding search
  search_lem zero low high deployment answers l h f = absurd (omega arith)
  search_lem (suc fuel) low high deployment answers l h f =
      let mid = (low + high - 1) / 2 in
      elim (Bool-cases (ltb low high)) [
        | inr e ↦ ground arith
        | inl e ↦ elim (Bool-cases (leb deployment mid)) [
          | inl before ↦ ground (
            arith,
            before,
            answers mid,
            search_lem fuel low mid deployment (λ b le. answers b (omega arith)),
          )
          | inr after ↦
              ground (arith, after, answers mid, search_lem fuel (mid + 1) high deployment answers)
        ]
      ]

unfoldable pub get_contract_deployment_block_num : Chain → ℕ → Outcome ScanError ℕ
unfolding is_archival_node has_code search
get_contract_deployment_block_num chain contract_address = do
  archival ← is_archival_node chain
  guard archival not_archival
  block_number ← ok_or chain.get_block_number provider_error
  deployed ← ok_or (has_code chain contract_address block_number) provider_error
  guard deployed no_contract
  ok_or (search (has_code chain contract_address) (block_number + 1) 0 block_number) provider_error

-- The contract has this code exactly from its deployment on.
abbrev pub code_from : ℕ → List ℕ → ℕ → CodeAnswer
code_from deployment bytes block = if leb deployment block then code bytes else code []

has_code-from :
    (chain : Chain) (address deployment block b : ℕ) (bytes : List ℕ)
    → chain.get_code_at address block ≡ code_from deployment (b ∷ bytes) block
    → has_code chain address block ≡ some (leb deployment block)
unfolding has_code get_code_at_height
has_code-from chain address deployment block b bytes answer =
    elim (Bool-cases (leb deployment block)) [
      | inl before ↦ rw (has_code, get_code_at_height, answer, before) refl
      | inr after ↦ rw (has_code, get_code_at_height, answer, after) refl
    ]

-- If the node knows the code of the test contract of its chain at the test block, and has a contract's
-- code, which is not empty, exactly from its deployment on in the blocks up to the current one, the
-- search ends and returns the deployment's block, or reports that there is no contract if the
-- deployment is later than the current block.
pub get_contract_deployment_block_num_lem :
    (chain : Chain) (contract_address chain_id test_block b block_number deployment : ℕ)
    (test_address test_b : ℕ) (bytes test_bytes : List ℕ)
    → chain.get_chain_id ≡ some chain_id
    → archival_test_query chain_id ≡ some (test_address, test_block)
    → chain.get_code_at test_address test_block ≡ code (test_b ∷ test_bytes)
    → chain.get_block_number ≡ some block_number
    → ((block : ℕ)
        → block ≤ block_number
        → chain.get_code_at contract_address block ≡ code_from deployment (b ∷ bytes) block)
    → get_contract_deployment_block_num chain contract_address
      ≡ (if leb deployment block_number then ok deployment else err no_contract)
unfolding get_contract_deployment_block_num is_archival_node get_code_at_height
get_contract_deployment_block_num_lem chain contract_address chain_id test_block b block_number
      deployment test_address test_b bytes test_bytes id query test height answers =
    let archival : has_code chain test_address test_block ≡ some true =
      rw (has_code, get_code_at_height, test) refl in
    let searched : (block : ℕ)
        → block ≤ block_number
        → has_code chain contract_address block ≡ some (leb deployment block) =
      λ block le.
        has_code-from chain contract_address deployment block b bytes (answers block le) in
    ground (
      arith,
      id,
      query,
      archival,
      height,
      searched block_number (omega arith),
      search_lem (has_code chain contract_address) (block_number + 1) 0 block_number deployment
          searched (omega arith),
    )
