-- ===== src/Examples/Stored.antt =====
-- The theorems on the events table, applied to values.
use nostream.Prelude.{ℕ, ◌≡◌, refl, false, some, List, [], ◌∷◌, arith, here, there}
use nostream.Prelude.Text.{Text, text}
use nostream.Bytes.{to_buffer}
use nostream.Action.{done}
use nostream.Event.{Event, SubscriptionFilter}
use nostream.Event.Filters.{is_generic_tag_query, is_event_matching_filter}
use nostream.Repository.EventRows.{insert_row, upsert_row}
use nostream.Repository.Query.{Postgres, tag_queries, build_query, is_selected}
use nostream.Repository.Query.Prefixes.{IsKey}
use nostream.Repository.Query.Agreement.{IsStorable, IsSimple}
use nostream.Repository.Query.Selected.{
  AsksFor, is_selected-is_event_matching_filter, is_selected-two_letters,
}
use nostream.Repository.Table.{Storage, EventsTable}
use nostream.Examples.{note, wanted}

abbrev bytea : Text → List ℕ
bytea (a ∷ b ∷ s) = to_buffer s
bytea _ = []

-- It trims nothing: right for texts without quotes.
abbrev postgres : Postgres
postgres = record { bytea = bytea; trimmed = λ s. s }

abbrev long_note : Event
long_note = record note {
  id = text "00000000000000000000000000000000000000000000000000000000000000a1";
  pubkey = text "b1b1000000000000000000000000000000000000000000000000000000000000";
}

-- By author, from a prefix of an odd length and one of an even length.
abbrev query_filter : SubscriptionFilter
query_filter = record wanted { authors = some (text "b1b" ∷ text "99ff" ∷ []) }

abbrev two_letters : SubscriptionFilter
two_letters = record wanted {
  generic = (text "#e", text "c2c2" ∷ []) ∷ (text "#p", text "b1b1" ∷ []) ∷ [];
}

id-IsKey : IsKey long_note.id
id-IsKey = record { digits = omega arith; full = refl }

pubkey-IsKey : IsKey long_note.pubkey
pubkey-IsKey = record { digits = omega arith; full = refl }

long_note-IsStorable : IsStorable postgres long_note
long_note-IsStorable = record {
  id = id-IsKey;
  pubkey = pubkey-IsKey;
  tags = ((refl, (refl, tt)), ((refl, (refl, tt)), tt));
}

query_filter-IsSimple : IsSimple query_filter
unfolding tag_queries is_generic_tag_query
query_filter-IsSimple = record {
  ids = tt;
  authors = (
    record { digits = omega arith; short = omega arith },
    (record { digits = omega arith; short = omega arith }, tt),
  );
  entries = (refl, tt);
}

is_selected-is_event_matching_filter_example :
    (is_selected postgres (build_query query_filter) (insert_row long_note)
      ≡ is_event_matching_filter query_filter long_note)
    × (is_selected postgres (build_query query_filter) (upsert_row long_note)
        ≡ is_event_matching_filter query_filter long_note)
is_selected-is_event_matching_filter_example =
    is_selected-is_event_matching_filter postgres query_filter long_note (λ s h. refl)
      query_filter-IsSimple long_note-IsStorable

AsksFor-both : AsksFor b'e' two_letters × AsksFor b'p' two_letters
unfolding tag_queries is_generic_tag_query
AsksFor-both = (here refl, there (here refl))

is_selected-two_letters_example :
    is_selected postgres (build_query two_letters) (insert_row note) ≡ false
is_selected-two_letters_example =
    is_selected-two_letters postgres two_letters (insert_row note) b'e' b'p' AsksFor-both.0
      AsksFor-both.1 (omega arith)

abbrev profile : Event
profile = record note { kind = 0; id = text "a1a1" }

-- The other row of the key is on a storage node.
abbrev storage : Storage
storage = record { from = 0; insert_archived = λ _ rows. (done 0, rows) }

abbrev table : EventsTable
table = record { hot = insert_row note ∷ []; archived = upsert_row profile ∷ [] }
