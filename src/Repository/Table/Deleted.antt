-- ===== src/Repository/Table/Deleted.antt =====
-- What a REQ still finds after `deleteByPubkeyAndIds` of src/repositories/event-repository.ts.
use nostream.Prelude.{
  ℕ, ◌≡◌, refl, inl, inr, Bool, true, not, ◌&&◌, List, [], ◌∷◌, map, any, filter, is_some, arith,
  Bool-cases, ◌≤◌, ◌∙◌, leb,
}
use nostream.Prelude.Text.{Text, ◌===◌}
use nostream.Bytes.{to_buffer}
use nostream.Event.{Event}
use nostream.Repository.{DbEvent}
use nostream.Repository.EventRows.{insert_row}
use nostream.Repository.Table.{
  Storage, EventsTable, insert, mark, has_id, id_of, delete_row, is_to_delete, ignore_into, routed,
  run, create, delete_by_pubkey_and_ids,
}

-- The row is of this author and has one of the ids.
abbrev pub is_named : Text → List Text → DbEvent → Bool
is_named pubkey ids row =
    row.event_pubkey === to_buffer pubkey && any (λ id. row.event_id === id) (map to_buffer ids)

-- The rows of the table less those that are named.
abbrev pub without : Text → List Text → List DbEvent → List DbEvent
without pubkey ids rows = filter (λ row. not (is_named pubkey ids row)) rows

-- The rows that are not deleted.
abbrev alive : List DbEvent → List DbEvent
alive = filter (λ row. not (is_some row.deleted_at))

delete_row-id_of :
    (now : ℕ) (pubkey : List ℕ) (ids : List (List ℕ)) (row : DbEvent)
    → id_of (delete_row now pubkey ids row) ≡ id_of row
unfolding delete_row
delete_row-id_of now pubkey ids row = elim (Bool-cases (is_to_delete pubkey ids row)) [
  | inl hit ↦ rw hit refl
  | inr missed ↦ rw missed refl
]

has_id-delete_row :
    (now : ℕ) (id pubkey : List ℕ) (ids : List (List ℕ)) (rows : List DbEvent)
    → has_id id (map (delete_row now pubkey ids) rows) ≡ has_id id rows
unfolding has_id
has_id-delete_row now id pubkey ids [] = refl
has_id-delete_row now id pubkey ids (row ∷ rows) =
    rw (delete_row-id_of now pubkey ids row, has_id-delete_row now id pubkey ids rows) refl

-- An event whose id is in events_hot and whose time is in its range, sent again after a deletion, is
-- not stored again, so that what was deleted stays deleted: `create` counts 0, and the table stays as
-- the deletion left it.
create-delete_by_pubkey_and_ids :
    (storage : Storage) (now later : ℕ) (pubkey : Text) (ids : List Text) (e : Event)
    (table : EventsTable)
    → storage.from ≤ e.created_at
    → has_id (to_buffer e.id) table.hot ≡ true
    → let after = (delete_by_pubkey_and_ids storage now pubkey ids table).1 in
      create storage later e after ≡ (0, after)
unfolding create delete_by_pubkey_and_ids run mark insert routed ignore_into insert_row
create-delete_by_pubkey_and_ids storage now later pubkey ids e table recent known =
    let within : leb storage.from e.created_at ≡ true = ground arith in
    let kept =
      has_id-delete_row now (to_buffer e.id) (to_buffer pubkey) (map to_buffer ids) table.hot
      ∙ known in
    rw (within, kept) refl
