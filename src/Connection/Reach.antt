-- ===== src/Connection/Reach.antt =====
-- What may happen to a connection, step by step, and what holds after any number of steps.
use nostream.Prelude.{
  ℕ, ◌≤◌, ◌<◌, ◌≡◌, ap, inl, inr, Bool, true, false, some, arith, length, Bool-cases, not, ◌&&◌,
}
use nostream.Prelude.Text.{Text}
use nostream.Action.{◌>>=◌}
use nostream.Event.{Event}
use nostream.Settings.{ClientSubscriptionLimits}
use nostream.Messages.{IncomingMessage, event_in, auth_in, req_in, close_in}
use nostream.Adapter.{
  emit, event, heartbeat, set_new_auth_challenge, on_client_pong, on_client_ping, on_client_close,
}
use nostream.Adapter.Laws.{send_message-subscriptions}
use nostream.World.{World}
use nostream.Strategies.Effects.{Outcome-cases}
use nostream.EventHandler.{Context}
use nostream.EventHandler.Accepted.{handle_event-Ends, handle_auth-Ends}
use nostream.Subscribe.{subscription_limits, handle_unsubscribe}
use nostream.Subscribe.Bounds.{handle_subscribe-bound}
use nostream.Connection.{
  Peer, Decoded, valid, malformed, is_message_rate_limited, demand_authentication,
  is_authentication_required, handle_message, unless_required, on_decoded, on_limited,
  on_client_message,
}
use nostream.Connection.Guards.{logged, is_message_rate_limited-SameState}
use nostream.Connection.Subscriptions.{
  event-subscriptions, heartbeat-subscriptions, unsubscribe-bound, Ends-subscriptions,
}

-- What happens to a connection: its client sends a message, an event is broadcast by someone, the
-- heartbeat strikes, the client answers or sends a ping, or it closes.
module _ {D C : Type 0} (context : Context D C) (peer : Peer) where
  pub data Step (w : World D C) : World D C → Type 0 where
    client_message : (raw : Text) → Step w (on_client_message context peer raw w).1
    event_broadcast : (e : Event) → Step w (record w { adapter = emit (event e) w.adapter })
    heartbeat_struck : Step w (record w { adapter = emit heartbeat w.adapter })
    client_pong : Step w (record w { adapter = on_client_pong w.adapter })
    client_ping : Step w (record w { adapter = on_client_ping w.adapter })
    client_close : Step w (record w { adapter = on_client_close w.adapter })
    -- Others write to the database and to the cache.
    others : (db : D) (cache : C) → Step w (record w { db = db; cache = cache })

  pub data Reaches (w : World D C) : World D C → Type 0 where
    start : Reaches w w
    step : {u v : World D C} → Reaches w u → Step u v → Reaches w v

module _ {D C : Type 0} (context : Context D C) (peer : Peer) (l : ClientSubscriptionLimits) (m : ℕ)
    (has : subscription_limits context.settings ≡ some l) (bounded : l.max_subscriptions ≡ some m)
    (positive : 0 < m) where
  abbrev WithinBound : World D C → Type 0
  WithinBound w = length w.adapter.subscriptions ≤ m

  handle_message-WithinBound :
      (i : IncomingMessage) (w : World D C)
      → WithinBound w
      → WithinBound (handle_message context peer i w).1
  unfolding handle_message handle_unsubscribe
  handle_message-WithinBound (event_in e) w h =
      rw
        (Ends-subscriptions context _ _ _ _ w _
          (handle_event-Ends context (some w.adapter.client_address) e w))
        h
  handle_message-WithinBound (auth_in e) w h =
      rw (Ends-subscriptions context _ _ _ _ w _ (handle_auth-Ends context e w)) h
  handle_message-WithinBound (req_in id filters) w h =
      handle_subscribe-bound peer.ramda context.settings context.events l m id filters w has bounded
        positive h
  handle_message-WithinBound (close_in id) w h = unsubscribe-bound id w.adapter m h

  on_decoded-WithinBound :
      (d : Decoded) (w : World D C) → WithinBound w → WithinBound (on_decoded context peer d w).1
  unfolding on_decoded is_authentication_required unless_required demand_authentication
      set_new_auth_challenge
  on_decoded-WithinBound (malformed reason) w h = rw (send_message-subscriptions _ w.adapter) h
  on_decoded-WithinBound (valid (auth_in e)) w h = handle_message-WithinBound (auth_in e) w h
  on_decoded-WithinBound (valid (req_in id filters)) w h =
      handle_message-WithinBound (req_in id filters) w h
  on_decoded-WithinBound (valid (close_in id)) w h = handle_message-WithinBound (close_in id) w h
  on_decoded-WithinBound (valid (event_in e)) w h =
      elim (Bool-cases (not w.adapter.authenticated && context.settings.authentication_enabled)) [
        | inl required ↦
            rw required
              (rw (send_message-subscriptions _ _) (rw (send_message-subscriptions _ _) h))
        | inr passed ↦ rw passed (handle_message-WithinBound (event_in e) w h)
      ]

  on_limited-WithinBound :
      (raw : Text) (limited : Bool) (w : World D C)
      → WithinBound w
      → WithinBound (on_limited context peer raw limited w).1
  unfolding on_limited
  on_limited-WithinBound raw true w h = rw (send_message-subscriptions _ w.adapter) h
  on_limited-WithinBound raw false w h = on_decoded-WithinBound (peer.decode raw) w h

  on_client_message-WithinBound :
      (raw : Text) (w : World D C)
      → WithinBound w
      → WithinBound (on_client_message context peer raw w).1
  unfolding on_client_message
  on_client_message-WithinBound raw w h =
      let u = record w { adapter = record w.adapter { alive = true } } in
      let r = is_message_rate_limited context peer u in
      let same =
        ap (λ a. a.subscriptions) (is_message_rate_limited-SameState context peer u).adapter in
      let ends = logged (is_message_rate_limited context peer >>= on_limited context peer raw) u in
      rw (ap (λ v. v.adapter.subscriptions) ends) (elim (Outcome-cases r.0) [
        | inr (t, e) ↦ rw e (rw same h)
        | inl (b, e) ↦ rw e (on_limited-WithinBound raw b r.1 (rw same h))
      ])

  Step-WithinBound : (w v : World D C) → Step context peer w v → WithinBound w → WithinBound v
  unfolding on_client_pong on_client_ping on_client_close
  Step-WithinBound w _ (client_message raw) h = on_client_message-WithinBound raw w h
  Step-WithinBound w _ (event_broadcast e) h = rw (event-subscriptions e w.adapter) h
  Step-WithinBound w _ heartbeat_struck h = rw (heartbeat-subscriptions w.adapter) h
  Step-WithinBound w _ client_pong h = h
  Step-WithinBound w _ client_ping h = h
  Step-WithinBound w _ client_close h = omega arith
  Step-WithinBound w _ (others db cache) h = h

  -- Where the settings bound the number of subscriptions by `m`, and `m` is not 0, a connection that
  -- starts with no more than `m` has no more after any sequence of messages from the client,
  -- broadcasts, heartbeats, pongs, pings, closings and writes by others.
  pub Reaches-WithinBound :
      (w v : World D C)
      → Reaches context peer w v
      → length w.adapter.subscriptions ≤ m
      → length v.adapter.subscriptions ≤ m
  Reaches-WithinBound w _ start h = h
  Reaches-WithinBound w v (step {u} before last) h =
      Step-WithinBound u v last (Reaches-WithinBound w u before h)
