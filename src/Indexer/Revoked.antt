-- ===== src/Indexer/Revoked.antt =====
-- What a run of crates/ar-cli/src/revoke.rs leaves in the table of events.
use mathlib.Core.Option
use zk_os_monorepo.Base.{
  ℕ, ◌==◌, ◌≡◌, refl, Bool, false, Option, none, some, List, [], ◌∷◌, if◌then◌else◌, arith,
  Option-cases, Bool-cases, inl, inr,
}
use zk_os_monorepo.Base.Assoc.{
  number_key, lookup, upsert, lookup-upsert, lookup-congruent, HasUniqueKeys,
}
use zk_os_monorepo.Indexer.{Event}
use zk_os_monorepo.Indexer.Revoke.{
  Poseidon, blob_to_field, find_key, revoke_event, revoke_events, revoke,
}

module _ (p : Poseidon) where
  -- Whether a key gives the event's commitment with its salt.
  abbrev pub opens : Event → List ℕ → Bool
  opens event key = elim (blob_to_field p event.mac_commitment) [
    | none ↦ false
    | some commitment ↦ elim (blob_to_field p event.mac_salt) [
      | none ↦ false
      | some salt ↦ elim (blob_to_field p key) [
        | none ↦ false
        | some k ↦ p.eq commitment (p.hash (salt ∷ k ∷ []))
      ]
    ]
  ]

  -- The first key of a list that passes a test.
  abbrev pub first_key : (List ℕ → Bool) → List (List ℕ) → Option (List ℕ)
  first_key test [] = none
  first_key test (key ∷ keys) = if test key then some key else first_key test keys

  abbrev pub revoked : List (List ℕ) → Event → Event
  revoked keys event = elim event.viewing_key [
    | some _ ↦ event
    | none ↦ record event { viewing_key = first_key (opens event) keys }
  ]

  find_key_lem :
      (commitment : p.Fr) (event : Event) (keys : List (List ℕ)) (found : Option (List ℕ))
      → blob_to_field p event.mac_commitment ≡ some commitment
      → find_key p commitment event.mac_salt keys ≡ some found
      → first_key (opens event) keys ≡ found
  unfolding find_key
  find_key_lem commitment event [] found c h = ground (arith, h)
  find_key_lem commitment event (key ∷ keys) found c h =
      let later = find_key_lem commitment event keys in
      elim (Option-cases (blob_to_field p event.mac_salt)) [
        | inl e ↦ absurd (ground (arith, e, h))
        | inr (salt, e) ↦ elim (Option-cases (blob_to_field p key)) [
          | inl g ↦ absurd (ground (arith, e, g, h))
          | inr (k, g) ↦ elim (Bool-cases (p.eq commitment (p.hash (salt ∷ k ∷ [])))) [
            | inl y ↦ ground (arith, c, e, g, y, h)
            | inr n ↦
                (let before : find_key p commitment event.mac_salt keys ≡ some found =
                    ground (arith, e, g, n, h) in
                  ground (arith, c, e, g, n, later found c before))
          ]
        ]
      ]

  lookup-row :
      (table : List (ℕ × Event)) (tx_hash tx : ℕ) (row event : Event)
      → lookup number_key tx_hash table ≡ some event
      → lookup number_key tx (upsert number_key tx_hash (λ _. row) row table)
        ≡ (if tx_hash == tx then some row else lookup number_key tx table)
  lookup-row table tx_hash tx row event found =
      ground (arith, found, lookup-upsert number_key tx_hash tx (λ _. row) row table)

  lookup-same :
      (table : List (ℕ × Event)) (tx_hash tx : ℕ) (event : Event)
      → lookup number_key tx_hash table ≡ some event
      → lookup number_key tx table
        ≡ (if tx_hash == tx then some event else lookup number_key tx table)
  lookup-same table tx_hash tx event found =
      ground (arith, found, lookup-congruent number_key tx_hash tx table)

  revoke_event_lem :
      (keys : List (List ℕ)) (table : List (ℕ × Event)) (tx_hash : ℕ) (event : Event)
      → (revoke_event p keys table tx_hash event).1 ≡ none
      → lookup number_key tx_hash table ≡ some event
      → (tx : ℕ)
      → lookup number_key tx (revoke_event p keys table tx_hash event).0
        ≡ (if tx_hash == tx then some (revoked keys event) else lookup number_key tx table)
  unfolding revoke_event
  revoke_event_lem keys table tx_hash event h found tx =
      let same = lookup-same table tx_hash tx event found in
      elim (Option-cases event.viewing_key) [
        | inr (key, v) ↦ ground (arith, v, same)
        | inl v ↦ elim (Option-cases (blob_to_field p event.mac_commitment)) [
          | inl c ↦ absurd (ground (arith, v, c, h))
          | inr (commitment, c) ↦ elim (Option-cases (find_key p commitment event.mac_salt keys)) [
            | inl k ↦ absurd (ground (arith, v, c, k, h))
            | inr (none, k) ↦
                (let first = find_key_lem commitment event keys none c k in
                  ground (arith, v, c, k, same, first))
            | inr (some key, k) ↦
                (let first = find_key_lem commitment event keys (some key) c k in
                  let row = record event { viewing_key = some key } in
                  let written = lookup-row table tx_hash tx row event found in
                  ground (arith, v, c, k, first, written))
          ]
        ]
      ]

  abbrev pub revoked_in : List (List ℕ) → Option Event → Option Event → Option Event
  revoked_in keys none row = row
  revoked_in keys (some event) row = some (revoked keys event)

  revoke_events_lem :
      (keys : List (List ℕ)) (table events : List (ℕ × Event))
      → HasUniqueKeys number_key events
      → ((tx : ℕ) (event : Event)
          → lookup number_key tx events ≡ some event
          → lookup number_key tx table ≡ some event)
      → (revoke_events p keys table events).1 ≡ none
      → (tx : ℕ)
      → lookup number_key tx (revoke_events p keys table events).0
        ≡ revoked_in keys (lookup number_key tx events) (lookup number_key tx table)
  unfolding revoke_events lookup
  revoke_events_lem keys table [] u within h tx = refl
  revoke_events_lem keys table ((tx_hash, event) ∷ events) u within h tx =
      let step = revoke_event p keys table tx_hash event in
      let found : lookup number_key tx_hash table ≡ some event =
        within tx_hash event (ground arith) in
      elim (Option-cases step.1) [
        | inr (error, e) ↦ absurd (ground (arith, e, h))
        | inl e ↦
            (let written = revoke_event_lem keys table tx_hash event e found in
              let still : (other : ℕ) (row : Event)
                  → lookup number_key other events ≡ some row
                  → lookup number_key other step.0 ≡ some row =
                λ other row l. elim (Bool-cases (tx_hash == other)) [
                  | inl y ↦
                      absurd (
                        ground (arith, y, l, u.0, lookup-congruent number_key tx_hash other events))
                  | inr n ↦
                      ground (arith, n, written other, within other row (ground (arith, n, l)))
                ] in
              let later =
                revoke_events_lem keys step.0 events u.1 still (ground (arith, e, h)) tx in
              elim (Bool-cases (tx_hash == tx)) [
                | inl y ↦
                    (let gone = lookup-congruent number_key tx_hash tx events y in
                      ground (arith, e, y, later, written tx, u.0, gone))
                | inr n ↦ ground (arith, e, n, later, written tx)
              ])
      ]

  -- Let no transaction stand twice in the table of events. After a run that reports no error, the
  -- table holds the same transactions as before. An event that had a viewing key is unchanged, and an
  -- event that had none has the first of the known keys whose hash with the event's salt is the
  -- event's commitment, and none if there is no such key; the rest of its row is unchanged.
  pub revoke_lem :
      (keys : List (List ℕ)) (events : List (ℕ × Event))
      → HasUniqueKeys number_key events
      → (revoke p keys events).1 ≡ none
      → (tx : ℕ)
      → lookup number_key tx (revoke p keys events).0
        ≡ Option.map (revoked keys) (lookup number_key tx events)
  unfolding revoke
  revoke_lem keys events u h tx =
      let lem = revoke_events_lem keys events events u (λ tx event l. l) h tx in
      elim (Option-cases (lookup number_key tx events)) [
        | inl l ↦ ground (arith, l, lem)
        | inr (event, l) ↦ ground (arith, l, lem)
      ]
