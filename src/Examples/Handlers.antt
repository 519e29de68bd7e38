-- ===== src/Examples/Handlers.antt =====
-- The theorems on the handlers, the strategies and the connection, applied to the note, to the
-- answer to the challenge and to the connection of the examples.
use nostream.Prelude.{◌≤◌, length, arith, ◌≡◌, ◌↔◌, refl, true, some}
use nostream.Prelude.Text.{text}
use nostream.Event.{Event}
use nostream.Event.Expiration.{add_expiration_metadata}
use nostream.Strategies.{event_strategy, signed_auth, execute}
use nostream.Strategies.Announced.{Announced}
use nostream.Strategies.Authentication.{Answers, execute_authenticates_iff}
use nostream.EventHandler.Stages.{handle_event, handle_auth}
use nostream.EventHandler.Ends.{Ends}
use nostream.EventHandler.Accepted.{PassedEvent, PassedAuth, handle_event-Ends, handle_auth-Ends}
use nostream.Connection.{on_client_message}
use nostream.Connection.Untouched.{Untouched}
use nostream.Connection.Guards.{on_client_message-Untouched}
use nostream.Connection.Reach.{start, step, client_message, Reaches-WithinBound}
use nostream.Examples.{
  subscription_bounds, note, answer, number, host, events, context, peer, world,
}

-- The note, from the address "::1".
abbrev sent_note : Event
sent_note = record note { remote_address = some (text "::1") }

handle_event-Ends_example :
    Ends context note.id
      (add_expiration_metadata number sent_note)
      (event_strategy (add_expiration_metadata number sent_note))
      (PassedEvent context sent_note world)
      world
      (handle_event context (some (text "::1")) note world)
handle_event-Ends_example = handle_event-Ends context (some (text "::1")) note world

handle_auth-Ends_example :
    Ends context answer.id answer signed_auth
      (PassedAuth context answer world)
      world
      (handle_auth context answer world)
handle_auth-Ends_example = handle_auth-Ends context answer world

execute_authenticates_iff_example :
    ((execute events host.clock signed_auth answer world).1.adapter.authenticated ≡ true)
    ↔ ((signed_auth ≡ signed_auth) × Answers events host.clock answer world)
execute_authenticates_iff_example =
    execute_authenticates_iff events host.clock signed_auth answer world refl

on_client_message-Untouched_example :
    Untouched world (on_client_message context peer (text "[]") world).1
on_client_message-Untouched_example =
    on_client_message-Untouched context peer (text "[]") world refl refl

Reaches-WithinBound_example :
    length (on_client_message context peer (text "[]") world).1.adapter.subscriptions ≤ 2
Reaches-WithinBound_example =
    Reaches-WithinBound context peer subscription_bounds 2 refl refl (omega arith) world
      (on_client_message context peer (text "[]") world).1 (step start (client_message (text "[]")))
      (omega arith)
