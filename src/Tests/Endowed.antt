-- ===== src/Tests/Endowed.antt =====
-- Two minions of a master on a chain whose balances are a function.
use zk_os_monorepo.Base.{
  map, ℕ, ◌+◌, ◌-◌, ◌*◌, ◌^◌, ◌≡◌, ◌≢◌, refl, true, none, some, List, [], ◌∷◌, ◌==◌, if◌then◌else◌,
  leb, arith,
}
use zk_os_monorepo.Base.Word.{mul256}
use zk_os_monorepo.Base.Bytes.{to_be_bytes, to_le_bytes}
use zk_os_monorepo.Distributor.{
  join_lines, Config, Signer, Chain, seed, cycle_take, Files, create_minions, create_from,
  distribute,
}
use zk_os_monorepo.Distributor.Endowed.{IsLedger, count_at, distribute_lem}

-- The key is the seed, and the address its last byte and 10.
abbrev last_byte : List ℕ → ℕ
last_byte [] = 0
last_byte (x ∷ []) = x
last_byte (x ∷ y ∷ xs) = last_byte (y ∷ xs)

abbrev from_seed : List ℕ → Signer
from_seed bytes = record { key = bytes; address = last_byte bytes + 10 }

abbrev random : ℕ → Signer
random id = record { key = []; address = id + 20 }

abbrev chain : Chain (ℕ → ℕ)
chain = record {
  get_block_number = λ s. some 8;
  get_balance = λ s a. some (s a);
  send_and_watch = λ s from to value. (
    (λ a. if to == a then s a + value else if from == a then s a - value else s a),
    leb value (s from),
  );
}

chain-IsLedger : IsLedger chain (λ s. s)
chain-IsLedger = record {
  connects = λ s. (8, refl);
  answers = λ s a. refl;
  succeeds = λ s from to value h. ground (arith, h);
  moves = λ s from to value a h other. refl;
}

-- The master has 9 tokens.
abbrev start : ℕ → ℕ
start a = if a == 1 then 9 * 10 ^ 18 else 5

abbrev config : Config
config = record { master_account = 1; minions = 2; bananas = 3; deterministic_addresses = true }

abbrev no_files : Files
no_files = record { minions_keys = none; minions_addresses = none }

distribute_lem_example :
    (let minions = create_minions from_seed random 2 true in
      let after = distribute from_seed random (λ k. k) (λ a. a ∷ []) chain start no_files config in
      (after.1 ≡ none)
      × (after.0.1 ≡ record {
        minions_keys = some (join_lines (map (λ m. m.key) minions));
        minions_addresses = some (join_lines (map (λ m. m.address ∷ []) minions));
      })
      × (after.0.0 1 ≡ 9 * 10 ^ 18 - 2 * mul256 3 (10 ^ 18))
      × ((a : ℕ) → a ≢ 1 → after.0.0 a ≡ start a + count_at a minions * mul256 3 (10 ^ 18)))
unfolding create_minions create_from seed cycle_take to_be_bytes to_le_bytes mul256
distribute_lem_example =
    distribute_lem from_seed random (λ k. k) (λ a. a ∷ []) chain (λ s. s) chain-IsLedger start
      no_files config (omega arith) (omega arith) (omega arith, (omega arith, tt)) (omega arith)
