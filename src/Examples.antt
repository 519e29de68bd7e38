-- ===== src/Examples.antt =====
-- Values on which the theorems are applied: two events, settings, a repository over a list of the
-- events that it holds, and a connection.
pub mod Events
pub mod Texts
pub mod Handlers
pub mod Subscriptions
pub mod Workers
pub mod Limiter
pub mod Stored
pub mod Requests
pub mod Callbacks
pub mod Accounts
use nostream.Prelude.{
  ℕ, suc, ◌-◌, ◌*◌, Bool, true, false, Option, none, some, List, [], ◌∷◌, ◌++◌, map,
}
use nostream.Prelude.Int.{pos}
use nostream.Prelude.Text.{Text, text}
use nostream.Action.{done}
use nostream.Event.{Event, SubscriptionFilter, one}
use nostream.Event.Expiration.{Number, safe, other}
use nostream.Settings.{
  Settings, Limits, EventLimits, no_event_limits, ClientSubscriptionLimits, PubkeyLimits, single,
}
use nostream.Adapter.{Client, Challenge, Adapter}
use nostream.Repository.{EventRepository, UserRepository, User, RateLimiter, Rows}
use nostream.Repository.EventRows.{insert_row}
use nostream.World.{World}
use nostream.EventHandler.{Host, Context}
use nostream.Subscribe.{Ramda}
use nostream.Connection.{Peer, Decoded, malformed, valid}
use nostream.Messages.{event_in}

abbrev pub note : Event
note = record {
  id = text "a0a0";
  pubkey = text "b1b1";
  created_at = 1000;
  kind = 1;
  tags = (text "e" ∷ text "c2c2" ∷ []) ∷ (text "expiration" ∷ text "9" ∷ []) ∷ [];
  sig = text "d3d3";
  content = text "hello";
  remote_address = none;
  expiration = none;
  deduplication = none;
}

-- An answer to the challenge "1f".
abbrev pub answer : Event
answer = record note {
  kind = 22242;
  tags = (text "relay" ∷ text "wss://r" ∷ []) ∷ (text "challenge" ∷ text "1f" ∷ []) ∷ [];
}

-- By the author of the note or by an author whose key begins with 9, and citing the event "c2c2".
abbrev pub wanted : SubscriptionFilter
wanted = record {
  ids = none;
  kinds = some (1 ∷ 7 ∷ []);
  since = some 1000;
  until = none;
  authors = some (text "9" ∷ text "b1" ∷ []);
  limit = none;
  generic = (text "#e", text "c2c2" ∷ []) ∷ [];
}

abbrev pub subscription_bounds : ClientSubscriptionLimits
subscription_bounds = record {
  max_subscriptions = some 2;
  max_filters = some 3;
  max_subscription_id_length = some 8;
}

abbrev pub event_bounds : EventLimits
event_bounds = record no_event_limits {
  content = some (single (record { kinds = some (one 1 ∷ []); max_length = some 64 }));
  pubkey = some (record {
    min_balance = some 10;
    min_leading_zero_bits = none;
    whitelist = none;
    blacklist = some (text "ff" ∷ []);
  });
}

abbrev pub settings : Settings
settings = record {
  name = text "relay";
  relay_url = text "wss://relay";
  network = record { deprecated_ip_header = none; remote_ip_header = some (text "x-real-ip") };
  authentication_enabled = true;
  require_admission = some true;
  payments = none;
  limits = some (record {
    invoice = none;
    admission_check = none;
    connection = none;
    subscription = some subscription_bounds;
    event = some event_bounds;
    message = none;
  });
}

-- A text of one digit reads as that digit, and no other as a safe integer.
abbrev pub number : Text → Number
number (c ∷ []) = safe (c - 48)
number _ = other

abbrev pub host : Host
host = record {
  hash = λ _. text "a0a0";
  verify = λ _ _ _. true;
  number = number;
  clock = λ n. 1000 * n;
}

abbrev pub events : EventRepository (List Event)
events = record {
  create = λ e db. (1, e ∷ db);
  upsert = λ e db. (done 1, e ∷ db);
  delete_by_pubkey_and_ids = λ _ _ db. (done 0, db);
  find_by_filters = λ _ db. done (record { rows = map insert_row db; broken = none });
}

abbrev pub users : UserRepository (List Event)
users = record {
  find_by_pubkey =
      λ pubkey _. done (some (record { pubkey = pubkey; is_admitted = true; balance = pos 12 }));
}

-- It counts, and never limits.
abbrev pub limiter : RateLimiter ℕ
limiter = record { hit = λ _ _ _ _ n. (done false, suc n) }

abbrev pub context : Context (List Event) ℕ
context = record {
  host = host;
  settings = settings;
  relay_pubkey = text "eeee";
  events = events;
  users = users;
  limiter = limiter;
}

-- It takes every list of filters for another one.
abbrev pub ramda : Ramda
ramda = record { equals = λ _ _. false; uniq = λ filters. filters }

abbrev decode : Text → Decoded
decode [] = malformed (text "Unexpected end of JSON input")
decode (c ∷ s) = valid (event_in note)

abbrev pub peer : Peer
peer = record { ramda = ramda; decode = decode; random = λ _. text "1f" }

-- A connection that was sent the challenge "1f" and has one subscription.
abbrev pub adapter : Adapter
adapter = record {
  client = record { is_open = true; sent = []; pings = 0; pongs = 0; closes = 0 };
  client_address = text "::1";
  alive = true;
  subscriptions = (text "s", wanted ∷ []) ∷ [];
  auth_challenge = some (record { created_at = 0; challenge = text "1f" });
  authenticated = false;
  listening = true;
  broadcasts = [];
}

abbrev pub world : World (List Event) ℕ
world = record { adapter = adapter; db = note ∷ []; cache = 0; ticks = 3 }
