-- ===== src/Distributor/Endowed.antt =====
-- What a run of crates/token-distributor/main.rs does to the balances, and its seeds.
use zk_os_monorepo.Base.{
  ℕ, zero, suc, ◌+◌, ◌-◌, ◌*◌, ◌^◌, ◌≤◌, ◌<◌, ◌≡◌, ◌≢◌, refl, ap, sym, ◌∙◌, Bool, true, none, some,
  List, [], ◌∷◌, map, length, take, ◌==◌, if◌then◌else◌, arith,
}
use zk_os_monorepo.Base.Word.{mul256, mul256-exact}
use zk_os_monorepo.Base.Bytes.{to_be_bytes, length-to_be_bytes, to_be_bytes_injective}
use zk_os_monorepo.Distributor.{
  join_lines, token_scale, Config, Signer, Chain, cycle_take, seed, Files, create_from,
  create_minions, save_minions, ensure_enough_funds, endow_minions, distribute,
}

take-cycle_take :
    (l n : ℕ) (xs whole : List ℕ) → length xs ≡ l → l ≤ n → take l (cycle_take n xs whole) ≡ xs
unfolding cycle_take
take-cycle_take zero n [] whole h le = refl
take-cycle_take zero n (x ∷ xs) whole h le = absurd (omega arith)
take-cycle_take (suc l) n [] whole h le = absurd (omega arith)
take-cycle_take (suc l) zero (x ∷ xs) whole h le = absurd (omega arith)
take-cycle_take (suc l) (suc n) (x ∷ xs) whole h le =
    ap (λ r. x ∷ r) (take-cycle_take l n xs whole (omega arith) (omega arith))

first_bytes : (k : ℕ) → take 4 (seed k) ≡ to_be_bytes 4 k
unfolding seed
first_bytes k =
    take-cycle_take 4 32 (to_be_bytes 4 k) (to_be_bytes 4 k) (length-to_be_bytes 4 k) (omega arith)

-- Two ids of 32 bits that have the same seed are the same.
pub seed_injective : (i j : ℕ) → i < 2 ^ 32 → j < 2 ^ 32 → seed i ≡ seed j → i ≡ j
seed_injective i j hi hj e =
    to_be_bytes_injective 4 i j (omega arith) (omega arith)
      (sym (first_bytes i) ∙ ap (take 4) e ∙ first_bytes j)

-- A chain without fees: a transfer succeeds if the sender has its value, and moves it.
pub record IsLedger {S : Type 0} (chain : Chain S) (balance : S → ℕ → ℕ) : Type 0 where
  pub connects : (s : S) → (n : ℕ) × (chain.get_block_number s ≡ some n)
  pub answers : (s : S) (a : ℕ) → chain.get_balance s a ≡ some (balance s a)
  pub succeeds :
      (s : S) (from to value : ℕ)
      → value ≤ balance s from
      → (chain.send_and_watch s from to value).1 ≡ true
  pub moves :
      (s : S) (from to value a : ℕ)
      → value ≤ balance s from
      → to ≢ from
      → balance (chain.send_and_watch s from to value).0 a ≡ (
          if to == a
          then balance s a + value
          else if from == a
          then balance s a - value
          else balance s a)

-- How many of the minions have an address.
abbrev pub count_at : ℕ → List Signer → ℕ
count_at a [] = 0
count_at a (m ∷ minions) = (if m.address == a then 1 else 0) + count_at a minions

-- None of the minions has an address.
abbrev pub NotAmong : ℕ → List Signer → Type 0
NotAmong a [] = Unit {0}
NotAmong a (m ∷ minions) = (m.address ≢ a) × NotAmong a minions

few_bananas : (m b : ℕ) → m < 2 ^ 32 → b < 2 ^ 32 → m * b ≤ 2 ^ 32 * b
few_bananas m b hm hb = grind arith

required_lem :
    (m b : ℕ) → m < 2 ^ 32 → b < 2 ^ 32 → mul256 (mul256 m b) token_scale ≡ m * mul256 b token_scale
required_lem m b hm hb =
    let small = few_bananas m b hm hb in
    rw (mul256-exact m b (omega (arith, small))) (
      rw (mul256-exact (m * b) token_scale (omega (arith, small)))
        (rw (mul256-exact b token_scale (omega arith)) (grind arith)))

module _ (from_seed : List ℕ → Signer) (random : ℕ → Signer) (key_text : List ℕ → List ℕ)
    (address_text : ℕ → List ℕ) {S : Type 0} (chain : Chain S) (balance : S → ℕ → ℕ)
    (ledger : IsLedger chain balance) where
  length-create_from :
      (count id : ℕ) (deterministic : Bool)
      → length (create_from from_seed random count id deterministic) ≡ count
  unfolding create_from
  length-create_from zero id deterministic = refl
  length-create_from (suc count) id deterministic =
      omega (arith, length-create_from count (id + 1) deterministic)

  -- What each minion is sent.
  abbrev pub amount_of : Config → ℕ
  amount_of config = mul256 config.bananas token_scale

  endow_step :
      (s : S) (config : Config) (m : Signer) (minions : List Signer)
      → (chain.send_and_watch s config.master_account m.address (amount_of config)).1 ≡ true
      → endow_minions from_seed random key_text address_text chain s config (m ∷ minions)
        ≡ endow_minions from_seed random key_text address_text chain
            (chain.send_and_watch s config.master_account m.address (amount_of config)).0
            config
            minions
  unfolding endow_minions
  endow_step s config m minions ok = rw ok refl

  endow_lem :
      (s : S) (config : Config) (minions : List Signer)
      → NotAmong config.master_account minions
      → length minions * amount_of config ≤ balance s config.master_account
      → (let endowed =
            endow_minions from_seed random key_text address_text chain s config minions in
          (endowed.1 ≡ none)
          × (balance endowed.0 config.master_account
              ≡ balance s config.master_account - length minions * amount_of config)
          × ((a : ℕ)
              → a ≢ config.master_account
              → balance endowed.0 a ≡ balance s a + count_at a minions * amount_of config))
  unfolding endow_minions
  endow_lem s config [] others enough = (refl, omega arith, λ a other. omega arith)
  endow_lem s config (m ∷ minions) (other, others) enough =
      let master = config.master_account in
      let sent = chain.send_and_watch s master m.address (amount_of config) in
      let one_more : suc (length minions) * amount_of config
          ≡ amount_of config + length minions * amount_of config =
        grind arith in
      let affordable : amount_of config ≤ balance s master = omega (arith, one_more) in
      let left : balance sent.0 master ≡ balance s master - amount_of config =
        ground
          (arith, ledger.moves s master m.address (amount_of config) master affordable other) in
      let (done, spent, credited) =
        endow_lem sent.0 config minions others (omega (arith, left, one_more)) in
      let step =
        endow_step s config m minions
          (ledger.succeeds s master m.address (amount_of config) affordable) in
      rw step (
        done,
        omega (arith, spent, left, one_more),
        λ a away. grind (
          arith,
          credited a away,
          ledger.moves s master m.address (amount_of config) a affordable other,
        ),
      )

  enough_lem :
      (s : S) (config : Config)
      → config.minions < 2 ^ 32
      → config.bananas < 2 ^ 32
      → config.minions * amount_of config < balance s config.master_account
      → ensure_enough_funds from_seed random key_text address_text chain s config ≡ none
  unfolding ensure_enough_funds
  enough_lem s config few small enough = ground (
    arith,
    ledger.answers s config.master_account,
    required_lem config.minions config.bananas few small,
  )

  -- A run whose check passes makes the minions, writes the files and sends the tokens.
  distribute_runs :
      (s : S) (files : Files) (config : Config)
      → ensure_enough_funds from_seed random key_text address_text chain s config ≡ none
      → (let minions =
            create_minions from_seed random config.minions config.deterministic_addresses in
          let endowed =
            endow_minions from_seed random key_text address_text chain s config minions in
          distribute from_seed random key_text address_text chain s files config
          ≡ ((endowed.0, save_minions from_seed random key_text address_text minions), endowed.1))
  unfolding distribute
  distribute_runs s files config passes = rw ((ledger.connects s).1, distribute) (rw passes refl)

  -- On a chain without fees, with numbers of 32 bits, and with minions other than the master: if the
  -- master has more than all minions are to get, then the check is enough, since no transfer fails. The
  -- run succeeds and writes the minions' keys to one file and their addresses to the other, each on a
  -- line, the master has paid for all minions, and every other account has
  -- got the amount once for each minion that has its address.
  pub distribute_lem :
      (s : S) (files : Files) (config : Config)
      → config.minions < 2 ^ 32
      → config.bananas < 2 ^ 32
      → NotAmong config.master_account
          (create_minions from_seed random config.minions config.deterministic_addresses)
      → config.minions * amount_of config < balance s config.master_account
      → (let minions =
            create_minions from_seed random config.minions config.deterministic_addresses in
          let after = distribute from_seed random key_text address_text chain s files config in
          (after.1 ≡ none)
          × (after.0.1 ≡ record {
            minions_keys = some (join_lines (map (λ m. key_text m.key) minions));
            minions_addresses = some (join_lines (map (λ m. address_text m.address) minions));
          })
          × (balance after.0.0 config.master_account
              ≡ balance s config.master_account - config.minions * amount_of config)
          × ((a : ℕ)
              → a ≢ config.master_account
              → balance after.0.0 a ≡ balance s a + count_at a minions * amount_of config))
  unfolding create_minions save_minions
  distribute_lem s files config few small others enough =
      let minions = create_from from_seed random config.minions 0 config.deterministic_addresses in
      let count : length minions ≡ config.minions =
        length-create_from config.minions 0 config.deterministic_addresses in
      let (done, spent, credited) = endow_lem s config minions others (rw count (omega arith)) in
      let runs = distribute_runs s files config (enough_lem s config few small enough) in
      rw runs (
        done,
        refl,
        spent ∙ ap (λ n. balance s config.master_account - n * amount_of config) count,
        credited,
      )
