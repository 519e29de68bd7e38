-- ===== src/Server.antt =====
-- src/adapters/web-socket-server-adapter.ts, over the clients of the library `ws`, and
-- `isRateLimited` of src/handlers/request-handlers/rate-limiter-middleware.ts.
pub mod Broadcast
use nostream.Prelude.{
  ℕ, suc, ◌+◌, Bool, true, false, ◌||◌, Option, none, some, List, [], ◌∷◌, ◌++◌, map, filter,
  length, if◌then◌else◌,
}
use nostream.Prelude.Text.{Text, text}
use nostream.Prelude.Decimal.{decimal}
use nostream.Action.{Action, Outcome, done, failed, pure, ◌>>=◌}
use nostream.Event.{Event}
use nostream.Settings.{Settings, RateLimit, ConnectionLimits, chain}
use nostream.Adapter.{Adapter, Client, AdapterEvent, heartbeat, event, emit}
use nostream.Repository.{RateLimiter}
use nostream.EventHandler.{listed_in}

-- A client: one with an adapter in `webSocketsAdapters`, or one without, of which all that is used
-- is whether it is open.
pub data ServerClient : Type 0 where
  registered : Adapter → ServerClient
  unregistered : Bool → ServerClient

abbrev pub is_client_open : ServerClient → Bool
is_client_open (registered a) = a.client.is_open
is_client_open (unregistered is_open) = is_open

-- `webSocketAdapter.emit(event)` where there is an adapter.
abbrev pub emit_to : AdapterEvent → ServerClient → ServerClient
emit_to e (registered a) = registered (emit e a)
emit_to e (unregistered is_open) = unregistered is_open

unfoldable pub deliver : Event → ServerClient → ServerClient
deliver e c = if is_client_open c then emit_to (event e) c else c

-- `onBroadcast`
unfoldable pub on_server_broadcast : Event → List ServerClient → List ServerClient
on_server_broadcast e clients = map (deliver e) clients

unfoldable pub on_server_heartbeat : List ServerClient → List ServerClient
on_server_heartbeat clients = map (emit_to heartbeat) clients

unfoldable pub get_connected_clients : List ServerClient → ℕ
get_connected_clients clients = length (filter is_client_open clients)

unfoldable pub connection_limit_key : Text → RateLimit → Text
connection_limit_key address limit = address ++ (text ":connection:" ++ decimal limit.period)

pub record ServerState (C : Type 0) : Type 0 where
  pub clients : List ServerClient
  pub cache : C

-- The adapter that the constructor makes for a client that is open.
unfoldable pub new_adapter : Text → Adapter
new_adapter address = record {
  client = record { is_open = true; sent = []; pings = 0; pongs = 0; closes = 0 };
  client_address = address;
  alive = true;
  subscriptions = [];
  auth_challenge = none;
  authenticated = false;
  listening = true;
  broadcasts = [];
}

module _ {C : Type 0} (settings : Settings) (limiter : RateLimiter C) where
  connection_limit_loop : Text → Bool → List RateLimit → Action (ServerState C) Bool
  connection_limit_loop address limited [] = pure limited
  connection_limit_loop address limited (limit ∷ limits) =
      (λ w.
        let hit =
          limiter.hit (connection_limit_key address limit) 1 limit.period limit.rate w.cache in
        (hit.0, record w { cache = hit.1 }))
      >>= λ is_limited. connection_limit_loop address (limited || is_limited) limits

  abbrev connection_limits : Option ConnectionLimits
  connection_limits = chain (λ l. l.connection) settings.limits

  abbrev loop_over : Text → Option (List RateLimit) → Action (ServerState C) Bool
  loop_over address none = pure false
  loop_over address (some limits) = connection_limit_loop address false limits

  unfoldable pub is_connection_rate_limited : Text → Action (ServerState C) Bool
  unfolding connection_limit_loop
  is_connection_rate_limited address w =
      if listed_in (chain (λ l. l.ip_whitelist) connection_limits) address
      then pure false w
      else loop_over address (chain (λ l. l.rate_limits) connection_limits) w

  abbrev admitted : Text → Bool → ServerClient
  admitted address true = unregistered false
  admitted address false = registered (new_adapter address)

  -- The client that connects from `address` becomes the last one.
  unfoldable pub on_connection : Text → Action (ServerState C) (Unit {0})
  on_connection address = do
    limited ← is_connection_rate_limited address
    λ w. (done tt, record w { clients = w.clients ++ admitted address limited ∷ [] })
