-- ===== src/Repository/Table.antt =====
-- The statements of `create`, `upsert` and `deleteByPubkeyAndIds` in
-- src/repositories/event-repository.ts, and what SQL makes of them on the table `events`, which
-- src/migrations/20240120_000000_partition_events_table.js splits by `event_created_at`. Both unique
-- indexes are on the partition events_hot alone: on the id, and on the author, the kind and the
-- deduplication of rows of replaceable kinds. The rows that a storage node holds are in neither.
pub mod Unique
pub mod Newest
pub mod Deleted
use nostream.Prelude.{
  ℕ, suc, ◌+◌, Bool, true, false, not, ◌&&◌, ◌||◌, Option, none, some, List, [], ◌∷◌, map, ltb, leb,
  ◌==◌, if◌then◌else◌, any, find,
}
use nostream.Prelude.Text.{Text, ◌===◌}
use nostream.Action.{Outcome, done, failed, other}
use nostream.Bytes.{to_buffer}
use nostream.Event.{Event}
use nostream.Repository.{DbEvent, Deduplication, author_and_kind, values}
use nostream.Repository.EventRows.{insert_row, upsert_row}

pub data Statement : Type 0 where
  -- `insert(row).onConflict().ignore()`
  insert_ignoring : DbEvent → Statement
  -- `insert(row).onConflict((event_pubkey, event_kind, event_deduplication) WHERE ...)
  -- .merge(...).where(event_created_at < row.event_created_at)`
  insert_merging : DbEvent → Statement
  -- `update({ deleted_at: now() })` where the author and the id fit and `deleted_at` is null
  mark_deleted : List ℕ → List (List ℕ) → Statement

unfoldable pub insert : Event → Statement
insert e = insert_ignoring (insert_row e)

unfoldable pub merge : Event → Statement
merge e = insert_merging (upsert_row e)

unfoldable pub mark : Text → List Text → Statement
mark pubkey ids = mark_deleted (to_buffer pubkey) (map to_buffer ids)

-- The rows that the second index holds, and the condition of the conflict target: the `WHERE` of
-- both, on the kind.
unfoldable pub is_upsert_kind : ℕ → Bool
is_upsert_kind kind =
    (kind == 0 || kind == 3 || kind == 41 || (leb 10000 kind && ltb kind 20000))
    || (leb 30000 kind && ltb kind 40000)

abbrev pub Key : Type 0
Key = List ℕ × ℕ × Deduplication

abbrev pub indexed_key : DbEvent → Option Deduplication → Option Key
indexed_key row none = none
indexed_key row (some d) = some (row.event_pubkey, row.event_kind, d)

-- What the second index holds of a row. Null is no value.
unfoldable pub key_of : DbEvent → Option Key
key_of row = if is_upsert_kind row.event_kind then indexed_key row row.event_deduplication else none

unfoldable pub same_texts : List Text → List Text → Bool
same_texts [] [] = true
same_texts [] (_ ∷ _) = false
same_texts (_ ∷ _) [] = false
same_texts (s ∷ texts) (t ∷ others) = s === t && same_texts texts others

unfoldable pub same_deduplication : Deduplication → Deduplication → Bool
same_deduplication (author_and_kind s k) (author_and_kind t l) = s === t && k == l
same_deduplication (values texts) (values others) = same_texts texts others
same_deduplication _ _ = false

unfoldable pub is_key : Key → Option Key → Bool
is_key k none = false
is_key (p, k, d) (some (q, l, c)) = p === q && (k == l && same_deduplication d c)

-- The other index.
unfoldable pub is_id : List ℕ → Option (List ℕ) → Bool
is_id id none = false
is_id id (some other_id) = id === other_id

abbrev pub id_of : DbEvent → Option (List ℕ)
id_of row = some row.event_id

unfoldable pub has_id : List ℕ → List DbEvent → Bool
has_id id = any (λ row. is_id id (id_of row))

abbrev pub is_optional_key : Option Key → Option Key → Bool
is_optional_key none o = false
is_optional_key (some k) o = is_key k o

-- The row with the same key.
unfoldable pub find_same : DbEvent → List DbEvent → Option DbEvent
find_same row = find (λ r. is_optional_key (key_of row) (key_of r))

-- `merge(omit(['event_pubkey', 'event_kind', 'event_deduplication'])(row))`
unfoldable pub merge_row : DbEvent → DbEvent → DbEvent
merge_row old row = record old {
  event_id = row.event_id;
  event_created_at = row.event_created_at;
  event_tags = row.event_tags;
  event_content = row.event_content;
  event_signature = row.event_signature;
  remote_address = row.remote_address;
  expires_at = row.expires_at;
  deleted_at = row.deleted_at;
}

-- The row that conflicts takes the merged values.
unfoldable pub replace_same : DbEvent → List DbEvent → List DbEvent
replace_same row [] = []
replace_same row (r ∷ table) =
    let rest = replace_same row table in
    if is_optional_key (key_of row) (key_of r) then merge_row r row ∷ table else r ∷ rest

-- Some row other than the one that conflicts has the id.
unfoldable pub has_id_elsewhere : DbEvent → List DbEvent → Bool
has_id_elsewhere row =
    any λ r. not (is_optional_key (key_of row) (key_of r)) && is_id row.event_id (id_of r)

abbrev pub is_to_delete : List ℕ → List (List ℕ) → DbEvent → Bool
is_to_delete pubkey ids row =
    row.event_pubkey === pubkey
    && (any (λ id. row.event_id === id) ids && elim row.deleted_at [ none ↦ true | some _ ↦ false ])

unfoldable pub delete_row : ℕ → List ℕ → List (List ℕ) → DbEvent → DbEvent
delete_row now pubkey ids row =
    if is_to_delete pubkey ids row then record row { deleted_at = some now } else row

-- How many members pass the test.
abbrev pub count {ℓ} : {A : Type ℓ} → (A → Bool) → List A → ℕ
count p [] = 0
count p (x ∷ xs) = let rest = count p xs in if p x then suc rest else rest

-- The rows of events_hot, and those of the partitions on storage nodes.
pub record EventsTable : Type 0 where
  pub hot : List DbEvent
  pub archived : List DbEvent

-- `from` is where the range of events_hot begins: 0, for MINVALUE, as the migration creates it, and
-- later where an operator narrows it to. The rows of an earlier time are sent to the storage nodes,
-- and `insert_archived` is what these make of an insertion, which no code here says.
pub record Storage : Type 0 where
  pub from : ℕ
  pub insert_archived : Statement → List DbEvent → Outcome ℕ × List DbEvent

-- The row is written into events_hot by `f`, or handed to the storage nodes.
unfoldable pub routed :
    Storage
    → Statement
    → DbEvent
    → (List DbEvent → Outcome ℕ × List DbEvent)
    → EventsTable
    → Outcome ℕ × EventsTable
routed storage statement row f table =
    if leb storage.from row.event_created_at
    then (let r = f table.hot in (r.0, record table { hot = r.1 }))
    else (let r = storage.insert_archived statement table.archived in
        (r.0, record table { archived = r.1 }))

unfoldable pub ignore_into : DbEvent → List DbEvent → Outcome ℕ × List DbEvent
ignore_into row rows =
    if has_id row.event_id rows || any (λ r. is_optional_key (key_of row) (key_of r)) rows
    then (done 0, rows)
    else (done 1, row ∷ rows)

-- On the rows of events_hot, whose index decides what conflicts.
unfoldable pub merge_into : DbEvent → Option DbEvent → List DbEvent → Outcome ℕ × List DbEvent
merge_into row none table =
    if has_id row.event_id table then (failed other, table) else (done 1, row ∷ table)
merge_into row (some old) table =
    if not (ltb old.event_created_at row.event_created_at)
    then (done 0, table)
    else if has_id_elsewhere row table
    then (failed other, table)
    else (done 1, replace_same row table)

-- A row that would be the second of events_hot with its id or its key is not written: the statement
-- says what happens instead. The order of the rows has no meaning. `now` is the time of the database.
unfoldable pub run : Storage → ℕ → Statement → EventsTable → Outcome ℕ × EventsTable
run storage now (insert_ignoring row) table =
    routed storage (insert_ignoring row) row (ignore_into row) table
run storage now (insert_merging row) table =
    routed storage (insert_merging row) row (λ rows. merge_into row (find_same row rows) rows) table
run storage now (mark_deleted pubkey ids) table = (
  done (count (is_to_delete pubkey ids) table.hot + count (is_to_delete pubkey ids) table.archived),
  record {
    hot = map (delete_row now pubkey ids) table.hot;
    archived = map (delete_row now pubkey ids) table.archived;
  },
)

-- `then(prop('rowCount'), () => 0)`
abbrev pub row_count : Outcome ℕ → ℕ
row_count (done n) = n
row_count (failed e) = 0

-- `EventRepository.create`, `upsert` and `deleteByPubkeyAndIds`.
unfoldable pub create : Storage → ℕ → Event → EventsTable → ℕ × EventsTable
create storage now e table = let r = run storage now (insert e) table in (row_count r.0, r.1)

unfoldable pub upsert : Storage → ℕ → Event → EventsTable → Outcome ℕ × EventsTable
upsert storage now e table = run storage now (merge e) table

unfoldable pub delete_by_pubkey_and_ids :
    Storage → ℕ → Text → List Text → EventsTable → Outcome ℕ × EventsTable
delete_by_pubkey_and_ids storage now pubkey ids table = run storage now (mark pubkey ids) table
