-- ===== src/Adapter.antt =====
-- The state of one client's connection and its listeners: src/adapters/web-socket-adapter.ts.
-- Listeners run at once when an event is emitted.
pub mod Laws
use nostream.Prelude.{
  ℕ, suc, ◌+◌, Bool, true, false, not, ◌&&◌, ◌||◌, Option, none, some, List, [], ◌∷◌, ◌++◌,
  if◌then◌else◌, length, ◌==◌,
}
use nostream.Prelude.Text.{Text, ◌===◌}
use nostream.Event.{Event, SubscriptionFilter}
use nostream.Event.Filters.{is_matching_any}
use nostream.Messages.{OutgoingMessage, create_outgoing_event_message}

-- The socket of the library `ws`, as far as the adapter uses it: is `readyState` OPEN, what was
-- sent, and how often `ping`, `pong` and `close` were called.
pub record Client : Type 0 where
  pub is_open : Bool
  pub sent : List OutgoingMessage
  pub pings : ℕ
  pub pongs : ℕ
  pub closes : ℕ

-- A `Map` keeps its keys in the order in which they were first set.
abbrev pub Subscriptions : Type 0
Subscriptions = List (Text × List SubscriptionFilter)

pub record Challenge : Type 0 where
  -- Milliseconds.
  pub created_at : ℕ
  pub challenge : Text

pub record Adapter : Type 0 where
  pub client : Client
  pub client_address : Text
  pub alive : Bool
  pub subscriptions : Subscriptions
  pub auth_challenge : Option Challenge
  pub authenticated : Bool
  -- False once `removeAllListeners` has been called.
  pub listening : Bool
  -- What `onBroadcast` has handed to the server and to the other processes, the first one first.
  -- With each event, what the client had been sent by then.
  pub broadcasts : List (Event × List OutgoingMessage)

-- `map.get(id)`, `map.set(id, filters)` and `map.delete(id)`
unfoldable pub get_subscription : Text → Subscriptions → Option (List SubscriptionFilter)
get_subscription id [] = none
get_subscription id ((other, filters) ∷ rest) =
    if other === id then some filters else get_subscription id rest

unfoldable pub set_subscription : Text → List SubscriptionFilter → Subscriptions → Subscriptions
set_subscription id filters [] = (id, filters) ∷ []
set_subscription id filters ((other, old) ∷ rest) =
    if other === id
    then (other, filters) ∷ rest
    else (other, old) ∷ set_subscription id filters rest

unfoldable pub delete_subscription : Text → Subscriptions → Subscriptions
delete_subscription id [] = []
delete_subscription id ((other, filters) ∷ rest) =
    if other === id then rest else (other, filters) ∷ delete_subscription id rest

unfoldable pub send_message : OutgoingMessage → Adapter → Adapter
send_message message a =
    if a.client.is_open
    then record a { client = record a.client { sent = a.client.sent ++ message ∷ [] } }
    else a

unfoldable pub on_subscribed : Text → List SubscriptionFilter → Adapter → Adapter
on_subscribed id filters a = record a {
  subscriptions = set_subscription id filters a.subscriptions;
}

unfoldable pub on_unsubscribed : Text → Adapter → Adapter
on_unsubscribed id a = record a { subscriptions = delete_subscription id a.subscriptions }

-- `challenge` stands for `randomBytes(16).toString("hex")`, `now` for `new Date()`.
unfoldable pub set_new_auth_challenge : ℕ → Text → Adapter → Adapter
set_new_auth_challenge now challenge a = record a {
  auth_challenge = some (record { created_at = now; challenge = challenge });
}

unfoldable pub set_client_to_authenticated : Adapter → Adapter
set_client_to_authenticated a = record a { authenticated = true; auth_challenge = none }

unfoldable pub on_broadcast : Event → Adapter → Adapter
on_broadcast event a = record a { broadcasts = a.broadcasts ++ (event, a.client.sent) ∷ [] }

-- The loop of `onSendEvent`.
send_to : Event → Subscriptions → Adapter → Adapter
send_to event [] a = a
send_to event ((id, filters) ∷ rest) a = send_to event rest (
    if is_matching_any filters event
    then send_message (create_outgoing_event_message id event) a
    else a)

unfoldable pub on_send_event : Event → Adapter → Adapter
unfolding send_to
on_send_event event a = send_to event a.subscriptions a

unfoldable pub close_client : Client → Client
close_client c = record c { is_open = false; closes = c.closes + 1 }

unfoldable pub on_heartbeat : Adapter → Adapter
on_heartbeat a =
    if not a.alive && length a.subscriptions == 0
    then record a { client = close_client a.client }
    else record a { alive = false; client = record a.client { pings = a.client.pings + 1 } }

unfoldable pub on_client_pong : Adapter → Adapter
on_client_pong a = record a { alive = true }

unfoldable pub on_client_ping : Adapter → Adapter
on_client_ping a = record a {
  alive = true;
  client = record a.client { pongs = a.client.pongs + 1 };
}

-- Message handlers that are still running are told to abort, which none of them acts on.
unfoldable pub on_client_close : Adapter → Adapter
on_client_close a = record a { alive = false; subscriptions = []; listening = false }

-- `WebSocketAdapterEvent`, with the arguments of the listeners.
pub data AdapterEvent : Type 0 where
  heartbeat : AdapterEvent
  subscribe : Text → List SubscriptionFilter → AdapterEvent
  unsubscribe : Text → AdapterEvent
  event : Event → AdapterEvent
  broadcast : Event → AdapterEvent
  message : OutgoingMessage → AdapterEvent

unfoldable pub listen : AdapterEvent → Adapter → Adapter
listen heartbeat a = on_heartbeat a
listen (subscribe id filters) a = on_subscribed id filters a
listen (unsubscribe id) a = on_unsubscribed id a
listen (event e) a = on_send_event e a
listen (broadcast e) a = on_broadcast e a
listen (message m) a = send_message m a

unfoldable pub emit : AdapterEvent → Adapter → Adapter
emit e a = if a.listening then listen e a else a
