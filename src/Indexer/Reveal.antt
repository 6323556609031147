-- ===== src/Indexer/Reveal.antt =====
-- `run` of crates/ar-cli/src/reveal.rs, with the queries of src/db.rs. The result is the rows that are
-- printed; the query of a key that is not there is an error of the database.
use zk_os_monorepo.Base.{ℕ, ◌≡◌, refl, ap, ◌∙◌, Bool, false, Option, none, some, List}
use zk_os_monorepo.Base.Assoc.{number_key, lookup, retain, kept, lookup-retain, HasUniqueKeys}
use zk_os_monorepo.Base.Bytes.{bytes_eq, bytes_eq_refl}
use zk_os_monorepo.Indexer.{Event}

unfoldable pub query_event : List (ℕ × Event) → ℕ → Option Event
query_event events tx_hash = lookup number_key tx_hash events

-- `viewing_key = ?1`, which no NULL satisfies.
unfoldable pub has_key : List ℕ → Event → Bool
has_key key event = elim event.viewing_key [ none ↦ false | some k ↦ bytes_eq k key ]

unfoldable pub query_events : List (ℕ × Event) → Option (List ℕ) → List (ℕ × Event)
query_events events (some key) = retain number_key (has_key key) events
query_events events none = events

pub data Revealed : Type 0 where
  query_returned_no_rows no_viewing_key : Revealed
  matching : List (ℕ × Event) → Revealed

unfoldable pub reveal : List (ℕ × Event) → ℕ → Revealed
reveal events tx_hash = elim (query_event events tx_hash) [
  | none ↦ query_returned_no_rows
  | some event ↦ elim event.viewing_key [
    | none ↦ no_viewing_key
    | some key ↦ matching (query_events events (some key))
  ]
]

-- What the command shall answer for a key and its rows.
abbrev pub IsMatching : List (ℕ × Event) → ℕ → Event → List ℕ → Type 0
IsMatching events tx_hash event key =
    (rows : List (ℕ × Event)) × (reveal events tx_hash ≡ matching rows)
    × (lookup number_key tx_hash rows ≡ some event)
    × ((h : ℕ)
        → lookup number_key h rows ≡ kept number_key (has_key key) (lookup number_key h events))

has_own_key :
    (event : Event) (key : List ℕ)
    → event.viewing_key ≡ some key
    → kept number_key (has_key key) (some event) ≡ some event
unfolding has_key
has_own_key event key known = rw (known, bytes_eq_refl key) refl

-- For a transaction in the table whose viewing key is known the command shows exactly the events of the
-- table with that key, each with its whole row, and the transaction's own row is one of them.
pub reveal_lem :
    (events : List (ℕ × Event)) (tx_hash : ℕ) (event : Event) (key : List ℕ)
    → HasUniqueKeys number_key events
    → lookup number_key tx_hash events ≡ some event
    → event.viewing_key ≡ some key
    → IsMatching events tx_hash event key
unfolding reveal query_event query_events
reveal_lem events tx_hash event key u found known =
    let rows = retain number_key (has_key key) events in
    (
      rows,
      rw (reveal, query_event, found, known) refl,
      lookup-retain number_key (has_key key) tx_hash events u
          ∙ ap (kept number_key (has_key key)) found
          ∙ has_own_key event key known,
      λ h. lookup-retain number_key (has_key key) h events u,
    )
