-- ===== src/Examples/Subscriptions.antt =====
-- The theorems on subscriptions, applied to the connection of the examples.
use nostream.Prelude.{◌≡◌, refl, none, some, List, [], ◌∷◌, map}
use nostream.Prelude.Text.{text, ◌===◌}
use nostream.Action.{done}
use nostream.Event.{Event}
use nostream.Messages.{event_out}
use nostream.Adapter.{get_subscription, on_send_event}
use nostream.Adapter.Laws.{notifications, on_send_event-sent}
use nostream.Repository.{Rows}
use nostream.Repository.EventRows.{insert_row}
use nostream.Subscribe.{can_subscribe, subscription_limits, handle_subscribe, id_too_long}
use nostream.Subscribe.Delivery.{Selected, Delivered, handle_subscribe-accepted}
use nostream.Examples.{note, wanted, settings, events, ramda, adapter, world}

on_send_event-sent_example :
    (on_send_event note adapter).client.sent ≡ notifications note adapter.subscriptions
on_send_event-sent_example = on_send_event-sent note adapter refl

abbrev rows : Rows
rows = record { rows = insert_row note ∷ []; broken = none }

is_accepted :
    can_subscribe ramda
      (subscription_limits settings)
      adapter.subscriptions
      (text "t")
      (wanted ∷ [])
    ≡ done none
unfolding can_subscribe get_subscription ◌===◌
is_accepted = refl

handle_subscribe-accepted_example :
    (sent : List Event) × Selected (wanted ∷ []) rows.rows sent
    × Delivered
        (text "t")
        (wanted ∷ [])
        (map (λ e. event_out (text "t") e) sent)
        none
        world
        (handle_subscribe ramda settings events (text "t") (wanted ∷ []) world)
handle_subscribe-accepted_example =
    handle_subscribe-accepted ramda settings events (text "t") (wanted ∷ []) rows world (refl, refl)
      is_accepted refl

is_too_long :
    can_subscribe ramda
      (subscription_limits settings)
      adapter.subscriptions
      (text "subscription")
      (wanted ∷ [])
    ≡ done (some (id_too_long 8))
unfolding can_subscribe get_subscription ◌===◌
is_too_long = refl
