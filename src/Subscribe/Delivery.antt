-- ===== src/Subscribe/Delivery.antt =====
-- What a client that subscribes is sent, in src/handlers/subscribe-message-handler.ts.
use nostream.Prelude.{
  ◌≡◌, refl, sym, ap, ◌∙◌, Option, none, some, List, [], ◌∷◌, ◌++◌, map, arith, ℕ, Any, Bool-cases,
  is_some, inl, inr, true, false,
}
use mathlib.Core.List.{append_assoc, append-nil}
use nostream.Prelude.Text.{Text, text}
use nostream.Action.{Outcome, done, failed, Thrown}
use nostream.Event.{Event, SubscriptionFilter}
use nostream.Settings.{Settings}
use nostream.Messages.{
  OutgoingMessage, event_out, eose_out, notice_out, create_outgoing_event_message,
  create_notice_message, create_end_of_stored_events_notice_message,
}
use nostream.Adapter.{
  Adapter, set_subscription, emit, listen, message, subscribe, send_message, on_subscribed,
}
use nostream.Repository.{Rows, EventRepository, DbEvent}
use nostream.Repository.EventRows.{to_nostr_event}
use nostream.Event.Filters.{is_matching_any}
use nostream.Event.Filters.Match.{Matches, is_matching_any_iff}
use nostream.Strategies.Effects.{IsUp}
use nostream.World.{World}
use nostream.Subscribe.{
  Ramda, SubscribeReason, subscribe_reason_text, can_subscribe, subscription_limits, send_each,
  select, end_stream, fetch_and_send, answer_subscribe, handle_subscribe,
}

-- What one message does to a connection that is open and listening.
record Sent (a b : Adapter) (messages : List OutgoingMessage) : Type 0 where
  up : IsUp b
  sent : b.client.sent ≡ a.client.sent ++ messages
  subscriptions : b.subscriptions ≡ a.subscriptions

emit-message : (m : OutgoingMessage) (a : Adapter) → IsUp a → Sent a (emit (message m) a) (m ∷ [])
unfolding emit listen send_message
emit-message m a up = record {
  up = (ground arith, ground arith);
  sent = ground arith;
  subscriptions = ground arith;
}

Sent-trans :
    {a b c : Adapter} {ms ns : List OutgoingMessage}
    → Sent a b ms
    → Sent b c ns
    → Sent a c (ms ++ ns)
Sent-trans {a} {b} {c} {ms} {ns} f g = record {
  up = g.up;
  sent = g.sent ∙ ap (λ l. l ++ ns) f.sent ∙ append_assoc a.client.sent ms ns;
  subscriptions = g.subscriptions ∙ f.subscriptions;
}

send_each-Sent :
    (id : Text) (events : List Event) (a : Adapter)
    → IsUp a
    → Sent a (send_each id events a) (map (λ e. event_out id e) events)
unfolding send_each create_outgoing_event_message
send_each-Sent id [] a up = record {
  up = up;
  sent = sym (append-nil a.client.sent);
  subscriptions = refl;
}
send_each-Sent id (e ∷ events) a up =
    let first = emit-message (event_out id e) a up in
    Sent-trans first (send_each-Sent id events (emit (message (event_out id e)) a) first.up)

emit-subscribe :
    (id : Text) (filters : List SubscriptionFilter) (a : Adapter)
    → IsUp a
    → (IsUp (emit (subscribe id filters) a))
      × ((emit (subscribe id filters) a).client ≡ a.client)
      × ((emit (subscribe id filters) a).subscriptions
          ≡ set_subscription id filters a.subscriptions)
unfolding emit listen on_subscribed
emit-subscribe id filters a up = ((ground arith, ground arith), ground arith, ground arith)

-- The events of the rows that are not deleted and that some filter matches, in the order of the rows.
pub data Selected (filters : List SubscriptionFilter) : List DbEvent → List Event → Type 0 where
  no_rows : Selected filters [] []
  taken :
      {row : DbEvent} {rows : List DbEvent} {events : List Event}
      → row.deleted_at ≡ none
      → Any (λ f. Matches f (to_nostr_event row)) filters
      → Selected filters rows events
      → Selected filters (row ∷ rows) (to_nostr_event row ∷ events)
  deleted :
      {row : DbEvent} {rows : List DbEvent} {events : List Event} (at : ℕ)
      → row.deleted_at ≡ some at
      → Selected filters rows events
      → Selected filters (row ∷ rows) events
  unmatched :
      {row : DbEvent} {rows : List DbEvent} {events : List Event}
      → ¬ (Any (λ f. Matches f (to_nostr_event row)) filters)
      → Selected filters rows events
      → Selected filters (row ∷ rows) events

is_some_lem : (o : Option ℕ) → is_some o ≡ true → (n : ℕ) × (o ≡ some n)
is_some_lem none h = cc
is_some_lem (some n) h = (n, refl)

is_none_lem : (o : Option ℕ) → is_some o ≡ false → o ≡ none
is_none_lem none h = refl
is_none_lem (some n) h = cc

select-Selected :
    (filters : List SubscriptionFilter) (rows : List DbEvent)
    → Selected filters rows (select filters rows)
unfolding select
select-Selected filters [] = no_rows
select-Selected filters (row ∷ rows) =
    let e = to_nostr_event row in
    let rest = select-Selected filters rows in
    let matching = is_matching_any_iff filters e in
    elim (Bool-cases (is_some row.deleted_at)) [
      | inl y ↦ let (at, h) = is_some_lem row.deleted_at y in rw y (deleted at h rest)
      | inr o ↦ elim (Bool-cases (is_matching_any filters e)) [
        | inl y ↦ rw (o, y) (taken (is_none_lem row.deleted_at o) (matching.0 y) rest)
        | inr n ↦ rw (o, n) (unmatched (λ m. absurd (ground (arith, n, matching.1 m))) rest)
      ]
    ]

module _ {D C : Type 0} where
  -- The subscription is kept, the client is sent `messages` and nothing else, and the database is
  -- not written.
  pub record Subscribed (id : Text) (filters : List SubscriptionFilter)
      (messages : List OutgoingMessage) (w v : World D C) : Type 0 where
    pub subscriptions :
        v.adapter.subscriptions ≡ set_subscription id filters w.adapter.subscriptions
    pub sent : v.adapter.client.sent ≡ w.adapter.client.sent ++ messages
    pub db : v.db ≡ w.db

  -- How the delivery of `messages` may end with `r`, by what broke the stream, if anything did.
  pub data Delivered (id : Text) (filters : List SubscriptionFilter)
      (messages : List OutgoingMessage) (broken : Option Thrown) (w : World D C)
      (r : Outcome (Unit {0}) × World D C) : Type 0 where
    complete :
        broken ≡ none
        → r.0 ≡ done tt
        → Subscribed id filters (messages ++ eose_out id ∷ []) w r.1
        → Delivered id filters messages broken w r
    partial :
        (thrown : Thrown)
        → broken ≡ some thrown
        → r.0 ≡ failed thrown
        → Subscribed id filters messages w r.1
        → Delivered id filters messages broken w r

module _ {D C : Type 0} (ramda : Ramda) (settings : Settings) (repository : EventRepository D) where
  end_stream_lem :
      (id : Text) (filters : List SubscriptionFilter) (messages : List OutgoingMessage)
      (broken : Option Thrown) (w v : World D C)
      → IsUp v.adapter
      → Subscribed id filters messages w v
      → Delivered id filters messages broken w (end_stream ramda settings repository id broken v)
  unfolding end_stream create_end_of_stored_events_notice_message
  end_stream_lem id filters messages (some thrown) w v up s = partial thrown refl refl s
  end_stream_lem id filters messages none w v up s =
      let m = emit-message (eose_out id) v.adapter up in
      complete refl refl (record {
        subscriptions = m.subscriptions ∙ s.subscriptions;
        sent =
            m.sent
            ∙ ap (λ l. l ++ eose_out id ∷ []) s.sent
            ∙ append_assoc w.adapter.client.sent messages (eose_out id ∷ []);
        db = s.db;
      })

  -- Where a subscription is accepted on a connection that is open and listening, and the query
  -- succeeds, the subscription is kept with the filters less their duplicates, and the client is
  -- sent, under its name and in the order of the rows, the event of each row that is not deleted and
  -- that some filter matches. If the stream came to its end, one EOSE follows, and the handler ends;
  -- if it broke, no EOSE is sent, and the handler throws what broke it.
  pub handle_subscribe-accepted :
      (id : Text) (filters : List SubscriptionFilter) (found : Rows) (w : World D C)
      → IsUp w.adapter
      → can_subscribe ramda
          (subscription_limits settings)
          w.adapter.subscriptions
          id
          (ramda.uniq filters)
        ≡ done none
      → repository.find_by_filters (ramda.uniq filters) w.db ≡ done found
      → (events : List Event) × Selected (ramda.uniq filters) found.rows events
        × Delivered id
            (ramda.uniq filters)
            (map (λ e. event_out id e) events)
            found.broken
            w
            (handle_subscribe ramda settings repository id filters w)
  unfolding handle_subscribe answer_subscribe fetch_and_send
  handle_subscribe-accepted id filters found w up ok_reason ok_rows =
      let subscribed = emit-subscribe id (ramda.uniq filters) w.adapter up in
      let a = emit (subscribe id (ramda.uniq filters)) w.adapter in
      let events = select (ramda.uniq filters) found.rows in
      let delivered = send_each-Sent id events a subscribed.0 in
      (
        events,
        select-Selected (ramda.uniq filters) found.rows,
        rw (ok_reason, ok_rows)
            (end_stream_lem id (ramda.uniq filters) (map (λ e. event_out id e) events) found.broken
              w (record w { adapter = send_each id events a }) delivered.up
              (record {
                subscriptions = delivered.subscriptions ∙ subscribed.2;
                sent =
                    delivered.sent
                    ∙ ap (λ c. c.sent ++ map (λ e. event_out id e) events) subscribed.1;
                db = refl;
              })),
      )

  -- A subscription that is rejected leaves the connection's subscriptions as they were: all that
  -- the client is sent is one NOTICE with the reason, and the database is not written.
  pub handle_subscribe-rejected :
      (id : Text) (filters : List SubscriptionFilter) (reason : SubscribeReason) (w : World D C)
      → IsUp w.adapter
      → can_subscribe ramda
          (subscription_limits settings)
          w.adapter.subscriptions
          id
          (ramda.uniq filters)
        ≡ done (some reason)
      → let r = handle_subscribe ramda settings repository id filters w in
        let v = r.1 in
        (r.0 ≡ done tt)
        × (v.adapter.subscriptions ≡ w.adapter.subscriptions)
        × (v.adapter.client.sent
            ≡ w.adapter.client.sent
              ++ notice_out (text "Subscription rejected: " ++ subscribe_reason_text reason) ∷ [])
        × (v.db ≡ w.db)
  unfolding handle_subscribe answer_subscribe create_notice_message
  handle_subscribe-rejected id filters reason w up bad =
      let m =
        emit-message (notice_out (text "Subscription rejected: " ++ subscribe_reason_text reason))
          w.adapter up in
      (rw bad, rw bad m.subscriptions, rw bad m.sent, rw bad)
