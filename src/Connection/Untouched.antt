-- ===== src/Connection/Untouched.antt =====
-- What the handlers other than the one for EVENT leave as it was: the database and the broadcasts.
use nostream.Prelude.{
  ◌+◌, ◌≡◌, refl, ap, ◌∙◌, inl, inr, Bool, true, false, Option, none, some, List, [], ◌∷◌, arith,
}
use nostream.Prelude.Text.{Text}
use nostream.Action.{Thrown}
use nostream.Event.{Event, SubscriptionFilter}
use nostream.Settings.{Settings}
use nostream.Messages.{OutgoingMessage}
use nostream.Adapter.{
  Adapter, Challenge, emit, listen, subscribe, send_message, on_subscribed, on_unsubscribed,
}
use nostream.Repository.{EventRepository}
use nostream.World.{World}
use nostream.Strategies.{
  signed_auth, execute, execute_signed_auth, answer_challenge, answer_verified,
}
use nostream.Strategies.Effects.{Outcome-cases, send_message-broadcasts, answer_challenge_lem}
use nostream.EventHandler.{Context}
use nostream.EventHandler.Stages.{handle_auth, run_strategy, reject}
use nostream.EventHandler.Ends.{SameState, refused, broken, ran}
use nostream.EventHandler.Accepted.{handle_auth-Ends}
use nostream.Subscribe.{
  Ramda, can_subscribe, subscription_limits, send_each, select, end_stream, fetch_and_send,
  answer_subscribe, handle_subscribe, handle_unsubscribe,
}

module _ {D C : Type 0} where
  -- Nothing was stored, and nothing was broadcast.
  pub record Untouched (w v : World D C) : Type 0 where
    pub db : v.db ≡ w.db
    pub broadcasts : v.adapter.broadcasts ≡ w.adapter.broadcasts

  pub Untouched-trans : {u v w : World D C} → Untouched u v → Untouched v w → Untouched u w
  Untouched-trans f g = record { db = g.db ∙ f.db; broadcasts = g.broadcasts ∙ f.broadcasts }

  pub SameState-Untouched : {w v : World D C} → SameState w v → Untouched w v
  SameState-Untouched s = record { db = s.db; broadcasts = ap (λ a. a.broadcasts) s.adapter }

  pub handle_unsubscribe-Untouched :
      (id : Text) (w : World D C) → Untouched w (handle_unsubscribe id w).1
  unfolding handle_unsubscribe emit listen on_unsubscribed
  handle_unsubscribe-Untouched id w = record { db = refl; broadcasts = ground arith }

pub sent-broadcasts :
    (m : OutgoingMessage) (a : Adapter) → (send_message m a).broadcasts ≡ a.broadcasts
unfolding send_message
sent-broadcasts m a = ground arith

subscribe-broadcasts :
    (id : Text) (filters : List SubscriptionFilter) (a : Adapter)
    → (emit (subscribe id filters) a).broadcasts ≡ a.broadcasts
unfolding emit listen on_subscribed
subscribe-broadcasts id filters a = ground arith

send_each-broadcasts :
    (id : Text) (events : List Event) (a : Adapter)
    → (send_each id events a).broadcasts ≡ a.broadcasts
unfolding send_each
send_each-broadcasts id [] a = refl
send_each-broadcasts id (e ∷ events) a =
    send_each-broadcasts id events _ ∙ send_message-broadcasts _ a

module _ {D C : Type 0} (ramda : Ramda) (settings : Settings) (repository : EventRepository D) where
  end_stream-Untouched :
      (id : Text) (o : Option Thrown) (w : World D C)
      → Untouched w (end_stream ramda settings repository id o w).1
  unfolding end_stream
  end_stream-Untouched id none w = record {
    db = refl;
    broadcasts = send_message-broadcasts _ w.adapter;
  }
  end_stream-Untouched id (some thrown) w = record { db = refl; broadcasts = refl }

  fetch_and_send-Untouched :
      (id : Text) (filters : List SubscriptionFilter) (w : World D C)
      → Untouched w (fetch_and_send ramda settings repository id filters w).1
  unfolding fetch_and_send
  fetch_and_send-Untouched id filters w =
      elim (Outcome-cases (repository.find_by_filters filters w.db)) [
        | inr (t, h) ↦ rw h (record { db = refl; broadcasts = refl })
        | inl (found, h) ↦
            let a = send_each id (select filters found.rows) w.adapter in
            let v = record w { adapter = a } in
            rw h (
              Untouched-trans {v = v}
                (record {
                  db = refl;
                  broadcasts = send_each-broadcasts id (select filters found.rows) w.adapter;
                })
                (end_stream-Untouched id found.broken v))
      ]

  pub handle_subscribe-Untouched :
      (id : Text) (filters : List SubscriptionFilter) (w : World D C)
      → Untouched w (handle_subscribe ramda settings repository id filters w).1
  unfolding handle_subscribe answer_subscribe
  handle_subscribe-Untouched id filters w =
      let fs = ramda.uniq filters in
      let c = can_subscribe ramda (subscription_limits settings) w.adapter.subscriptions id fs in
      elim (Outcome-cases c) [
        | inr (t, h) ↦ rw h (record { db = refl; broadcasts = refl })
        | inl (some reason, h) ↦
            rw h (record { db = refl; broadcasts = send_message-broadcasts _ w.adapter })
        | inl (none, h) ↦
            let v = record w { adapter = emit (subscribe id fs) w.adapter } in
            rw h (
              Untouched-trans {v = v}
                (record { db = refl; broadcasts = subscribe-broadcasts id fs w.adapter })
                (fetch_and_send-Untouched id fs v))
      ]

module _ {D C : Type 0} (context : Context D C) where
  answer_verified-db :
      (e : Event) (verified : Bool) (w : World D C)
      → (answer_verified context.events context.host.clock e verified w).1.db ≡ w.db
  answer_verified-db e true w = refl
  answer_verified-db e false w = refl

  answer_challenge-db :
      (e : Event) (o : Option Challenge) (w : World D C)
      → (answer_challenge context.events context.host.clock e o w).1.db ≡ w.db
  answer_challenge-db e none w = refl
  answer_challenge-db e (some c) w = answer_verified-db e _ (record w { ticks = w.ticks + 1 })

  run_signed_auth-Untouched :
      (e : Event) (w : World D C) → Untouched w (run_strategy context e signed_auth w).1
  unfolding run_strategy reject execute execute_signed_auth
  run_signed_auth-Untouched e w =
      let r = answer_challenge context.events context.host.clock e w.adapter.auth_challenge w in
      let db = answer_challenge-db e w.adapter.auth_challenge w in
      let silent =
        answer_challenge_lem context.events context.host.clock e w.adapter.auth_challenge w in
      elim (Outcome-cases r.0) [
        | inl (n, h) ↦ rw h (record { db = db; broadcasts = silent })
        | inr (t, h) ↦
            rw h (record { db = db; broadcasts = send_message-broadcasts _ r.1.adapter ∙ silent })
      ]

  pub handle_auth-Untouched : (e : Event) (w : World D C) → Untouched w (handle_auth context e w).1
  handle_auth-Untouched e w = elim (handle_auth-Ends context e w) [
    | refused reason a b c ↦ record {
      db = c;
      broadcasts = ap (λ a. a.broadcasts) b ∙ send_message-broadcasts _ w.adapter;
    }
    | broken t a b ↦ SameState-Untouched b
    | ran v a p b ↦
        rw b (Untouched-trans {v = v} (SameState-Untouched a) (run_signed_auth-Untouched e v))
  ]
