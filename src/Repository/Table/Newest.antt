-- ===== src/Repository/Table/Newest.antt =====
-- `upsert` of src/repositories/event-repository.ts keeps the newest event of each key.
use nostream.Prelude.{ℕ, ◌<◌, ◌≤◌, ◌≡◌, ◌≢◌, true, Option, some, List, find}
use nostream.Bytes.{to_buffer}
use nostream.Action.{Outcome, done, failed, other}
use nostream.Event.{Event}
use nostream.Repository.{DbEvent}
use nostream.Repository.EventRows.{upsert_row, deduplication_column}
use nostream.Repository.Table.{EventsTable, Key, key_of, is_key, has_id}

-- The abstract view of the table: the row of a key.
unfoldable pub lookup : Key → List DbEvent → Option DbEvent
lookup k = find (λ r. is_key k (key_of r))

abbrev pub key_of_event : Event → Key
key_of_event e = (to_buffer e.pubkey, e.kind, deduplication_column e e.deduplication)

-- What becomes of the view of events_hot when the event is upserted with the result `r`.
pub data Upserted (e : Event) (table : List DbEvent) (r : Outcome ℕ × List DbEvent) : Type 0 where
  refused :
      r.0 ≡ failed other → r.1 ≡ table → has_id (to_buffer e.id) table ≡ true → Upserted e table r
  kept :
      (old : DbEvent)
      → lookup (key_of_event e) table ≡ some old
      → e.created_at ≤ old.event_created_at
      → r.0 ≡ done 0
      → r.1 ≡ table
      → Upserted e table r
  stored :
      ((old : DbEvent)
        → lookup (key_of_event e) table ≡ some old
        → old.event_created_at < e.created_at)
      → r.0 ≡ done 1
      → lookup (key_of_event e) r.1 ≡ some (upsert_row e)
      → ((k : Key) → k ≢ key_of_event e → lookup k r.1 ≡ lookup k table)
      → Upserted e table r

-- The table `events` after an upsert: events_hot does one of these things, and the rows of the storage
-- nodes stay.
pub record UpsertedHot (e : Event) (table : EventsTable) (r : Outcome ℕ × EventsTable)
    : Type 0 where
  pub hot : Upserted e table.hot (r.0, r.1.hot)
  pub archived : r.1.archived ≡ table.archived
