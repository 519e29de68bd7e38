-- ===== src/Repository/EventRows.antt =====
-- How an event becomes a row, in `insert` and `upsert` of src/repositories/event-repository.ts, and
-- how a row becomes an event again, in `toNostrEvent` of src/utils/event.ts.
use nostream.Prelude.{◌≡◌, Option, none, some, List}
use nostream.Prelude.Text.{Text}
use nostream.Bytes.{to_buffer, from_buffer, IsHexText}
use nostream.Bytes.Laws.{from_buffer-to_buffer}
use nostream.Event.{Event}
use nostream.Repository.{DbEvent, Deduplication, author_and_kind, values}

unfoldable pub insert_row : Event → DbEvent
insert_row e = record {
  event_id = to_buffer e.id;
  event_pubkey = to_buffer e.pubkey;
  event_kind = e.kind;
  event_created_at = e.created_at;
  event_content = e.content;
  event_tags = e.tags;
  event_signature = to_buffer e.sig;
  event_deduplication = none;
  remote_address = e.remote_address;
  expires_at = e.expiration;
  deleted_at = none;
}

unfoldable pub deduplication_column : Event → Option (List Text) → Deduplication
deduplication_column e none = author_and_kind e.pubkey e.kind
deduplication_column e (some texts) = values texts

unfoldable pub upsert_row : Event → DbEvent
unfolding insert_row
upsert_row e = record (insert_row e) {
  event_deduplication = some (deduplication_column e e.deduplication);
}

-- The metadata are not read back.
unfoldable pub to_nostr_event : DbEvent → Event
to_nostr_event row = record {
  id = from_buffer row.event_id;
  pubkey = from_buffer row.event_pubkey;
  created_at = row.event_created_at;
  kind = row.event_kind;
  tags = row.event_tags;
  sig = from_buffer row.event_signature;
  content = row.event_content;
  remote_address = none;
  expiration = none;
  deduplication = none;
}

-- The id, the public key and the signature are lower-case hex of an even length, as the schemas of
-- src/schemas ask.
pub record HasHexFields (e : Event) : Type 0 where
  pub id : IsHexText e.id
  pub pubkey : IsHexText e.pubkey
  pub sig : IsHexText e.sig

-- The event as it came, without the metadata.
abbrev pub bare : Event → Event
bare e = record e { remote_address = none; expiration = none; deduplication = none }

-- For an event whose id, public key and signature are lower-case hex text of an even length, the
-- row that is inserted and the row that is upserted are both read back as the same event, less its
-- metadata.
pub to_nostr_event-rows :
    (e : Event)
    → HasHexFields e
    → (to_nostr_event (insert_row e) ≡ bare e) × (to_nostr_event (upsert_row e) ≡ bare e)
unfolding to_nostr_event insert_row upsert_row
to_nostr_event-rows e h =
    let id = from_buffer-to_buffer e.id h.id in
    let pubkey = from_buffer-to_buffer e.pubkey h.pubkey in
    let sig = from_buffer-to_buffer e.sig h.sig in (rw (id, pubkey, sig), rw (id, pubkey, sig))
