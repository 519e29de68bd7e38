-- ===== src/Event/Kinds.antt =====
-- The tests on an event's kind in src/utils/event.ts.
use nostream.Prelude.{Bool, ◌&&◌, ◌||◌, ◌==◌, leb}
use nostream.Event.{
  Event, KindItem, one, range, set_metadata, contact_list, channel_metadata, replaceable_first,
  replaceable_last, ephemeral_first, ephemeral_last, parameterized_replaceable_first,
  parameterized_replaceable_last, delete,
}

unfoldable pub is_event_kind_or_range_match : Event → KindItem → Bool
is_event_kind_or_range_match event (one item) = item == event.kind
is_event_kind_or_range_match event (range first last) = leb first event.kind && leb event.kind last

unfoldable pub is_replaceable_event : Event → Bool
is_replaceable_event event =
    event.kind == set_metadata
    || event.kind == contact_list
    || event.kind == channel_metadata
    || (leb replaceable_first event.kind && leb event.kind replaceable_last)

unfoldable pub is_ephemeral_event : Event → Bool
is_ephemeral_event event = leb ephemeral_first event.kind && leb event.kind ephemeral_last

unfoldable pub is_parameterized_replaceable_event : Event → Bool
is_parameterized_replaceable_event event =
    leb parameterized_replaceable_first event.kind && leb event.kind parameterized_replaceable_last

unfoldable pub is_delete_event : Event → Bool
is_delete_event event = event.kind == delete
