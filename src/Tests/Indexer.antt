-- ===== src/Tests/Indexer.antt =====
-- An indexer that has seen the first of some blocks, and three events to revoke.
use mathlib.Core.Option
use zk_os_monorepo.Base.{
  ℕ, ◌+◌, ◌-◌, ◌*◌, ◌≡◌, refl, Option, none, some, List, [], ◌∷◌, ltb, ◌==◌, if◌then◌else◌, arith,
}
use zk_os_monorepo.Base.Assoc.{number_key, lookup, upsert}
use zk_os_monorepo.Base.Blocks.{logs_of}
use zk_os_monorepo.Base.Bytes.{to_le_bytes, from_le_bytes}
use zk_os_monorepo.Account.Action.{Deposit, deposit_event}
use zk_os_monorepo.Account.Secrets.{field_modulus}
use zk_os_monorepo.Indexer.{
  Log, process_log, query_checkpoint, Event, Database, decoded, process_logs, index_events,
}
use zk_os_monorepo.Indexer.Indexed.{index_events_lem}
use zk_os_monorepo.Indexer.Revoke.{
  Poseidon, revoke, revoke_events, revoke_event, find_key, blob_to_field,
}
use zk_os_monorepo.Indexer.Revoked.{revoked, revoke_lem}
use zk_os_monorepo.Tests.Fixtures.{fr}

abbrev deposited : Deposit
deposited = record {
  contract_version = record { byte0 = 0; byte1 = 0; byte2 = 1 };
  token_address = 0;
  amount = 5;
  new_note = 6;
  new_note_index = 7;
  mac_salt = 8;
  mac_commitment = 9;
  protocol_fee = 0;
  memo = [];
}

abbrev blocks : ℕ → List Log
blocks block =
    record {
      transaction_hash = some (block + 100);
      block_number = some block;
      event = decoded (deposit_event deposited);
    }
    ∷ []

abbrev get_logs : ℕ → ℕ → Option (List Log)
get_logs a b = some (logs_of blocks a (b + 1 - a))

abbrev seen : Database
seen = record { events = []; checkpoint = some 4 }

abbrev after : List (ℕ × Event)
after = (process_logs fr [] (logs_of blocks 4 (8 + 1 - 4))).0

index_events_lem_example :
    index_events fr get_logs (some 8) 2 2 seen
    ≡ (record { events = after; checkpoint = some 8 }, none)
unfolding query_checkpoint process_logs process_log
index_events_lem_example =
    index_events_lem fr blocks get_logs 8 2 2 seen after (λ a b le. refl) (omega arith)
      (omega arith) (omega arith) refl

abbrev mix : List ℕ → ℕ
mix [] = 0
mix (x ∷ xs) = x + 3 * mix xs

abbrev pub poseidon : Poseidon
poseidon = record {
  Fr = ℕ;
  eq = λ x y. x == y;
  from_bytes =
      λ blob. if ltb (from_le_bytes blob) field_modulus then some (from_le_bytes blob) else none;
  hash = mix;
}

abbrev pub event_of : ℕ → Option (List ℕ) → Event
event_of commitment key = record {
  block_number = 4;
  mac_salt = to_le_bytes 32 2;
  mac_commitment = to_le_bytes 32 commitment;
  viewing_key = key;
}

-- The commitments of the keys 7 and 9 and the salt 2 are 23 and 29.
abbrev known_keys : List (List ℕ)
known_keys = to_le_bytes 32 5 ∷ to_le_bytes 32 7 ∷ []

abbrev known_events : List (ℕ × Event)
known_events =
    (101, event_of 23 none) ∷ (102, event_of 29 none) ∷ (103, event_of 23 (some (9 ∷ []))) ∷ []

revoke_lem_example :
    lookup number_key 101 (revoke poseidon known_keys known_events).0
    ≡ Option.map (revoked poseidon known_keys) (lookup number_key 101 known_events)
unfolding revoke revoke_events revoke_event find_key blob_to_field lookup to_le_bytes from_le_bytes
    upsert
revoke_lem_example = revoke_lem poseidon known_keys known_events (refl, (refl, (refl, tt))) refl 101

-- The run finds the key 7.
revoke_example :
    lookup number_key 101 (revoke poseidon known_keys known_events).0
    ≡ some (event_of 23 (some (to_le_bytes 32 7)))
unfolding revoke revoke_events revoke_event find_key blob_to_field lookup to_le_bytes from_le_bytes
    upsert
revoke_example = refl
