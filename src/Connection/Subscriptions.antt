-- ===== src/Connection/Subscriptions.antt =====
-- What the handlers and the listeners do to the subscriptions of a connection.
use nostream.Prelude.{
  ℕ, ◌≤◌, ◌≡◌, refl, ap, ◌∙◌, inl, inr, [], ◌∷◌, arith, length, if◌then◌else◌, Bool-cases,
}
use nostream.Prelude.Text.{Text, ◌===◌}
use nostream.Action.{Outcome}
use nostream.Event.{Event}
use nostream.Adapter.{
  Adapter, Subscriptions, delete_subscription, emit, listen, broadcast, event, heartbeat,
  unsubscribe, on_broadcast, on_heartbeat, on_unsubscribed, set_client_to_authenticated,
  on_send_event,
}
use nostream.Adapter.Laws.{on_send_event-subscriptions}
use nostream.World.{World}
use nostream.Strategies.{Strategy, execute}
use nostream.Strategies.Effects.{Outcome-cases}
use nostream.Strategies.Observed.{execute-view_all}
use nostream.EventHandler.{Context}
use nostream.EventHandler.Stages.{run_strategy, reject}
use nostream.EventHandler.Ends.{Ends, refused, broken, ran}
use nostream.Subscribe.Bounds.{message-subscriptions}

broadcast-subscriptions :
    (e : Event) (a : Adapter) → (emit (broadcast e) a).subscriptions ≡ a.subscriptions
unfolding emit listen on_broadcast
broadcast-subscriptions e a = ground arith

pub event-subscriptions :
    (e : Event) (a : Adapter) → (emit (event e) a).subscriptions ≡ a.subscriptions
unfolding emit listen
event-subscriptions e a = elim (Bool-cases a.listening) [
  | inl on ↦
      ap (λ b. (if b then on_send_event e a else a).subscriptions) on
      ∙ on_send_event-subscriptions e a
  | inr off ↦ ap (λ b. (if b then on_send_event e a else a).subscriptions) off
]

pub heartbeat-subscriptions : (a : Adapter) → (emit heartbeat a).subscriptions ≡ a.subscriptions
unfolding emit listen on_heartbeat
heartbeat-subscriptions a = ground arith

authenticated-subscriptions :
    (a : Adapter) → (set_client_to_authenticated a).subscriptions ≡ a.subscriptions
unfolding set_client_to_authenticated
authenticated-subscriptions a = refl

length-delete_subscription :
    (id : Text) (s : Subscriptions) → length (delete_subscription id s) ≤ length s
unfolding delete_subscription
length-delete_subscription id [] = omega arith
length-delete_subscription id ((k, filters) ∷ rest) = elim (Bool-cases (k === id)) [
  | inl h ↦ ground arith
  | inr h ↦ ground (arith, length-delete_subscription id rest)
]

pub unsubscribe-bound :
    (id : Text) (a : Adapter) (m : ℕ)
    → length a.subscriptions ≤ m
    → length (emit (unsubscribe id) a).subscriptions ≤ m
unfolding emit listen on_unsubscribed
unsubscribe-bound id a m h = ground (arith, length-delete_subscription id a.subscriptions)

module _ {D C : Type 0} (context : Context D C) where
  run_strategy-subscriptions :
      (e : Event) (s : Strategy) (w : World D C)
      → (run_strategy context e s w).1.adapter.subscriptions ≡ w.adapter.subscriptions
  unfolding run_strategy reject
  run_strategy-subscriptions e s w =
      let same =
        execute-view_all (λ a. a.subscriptions) message-subscriptions broadcast-subscriptions
          context.events context.host.clock authenticated-subscriptions s e w in
      elim (Outcome-cases (execute context.events context.host.clock s e w).0) [
        | inl (n, h) ↦ rw h same
        | inr (t, h) ↦ rw h (message-subscriptions _ _ ∙ same)
      ]

  pub Ends-subscriptions :
      (id : Text) (e : Event) (s : Strategy) (P : Type 0) (w : World D C)
      (r : Outcome (Unit {0}) × World D C)
      → Ends context id e s P w r
      → r.1.adapter.subscriptions ≡ w.adapter.subscriptions
  Ends-subscriptions id e s P w r (refused reason a b c) =
      ap (λ a. a.subscriptions) b ∙ message-subscriptions _ w.adapter
  Ends-subscriptions id e s P w r (broken t a b) = ap (λ a. a.subscriptions) b.adapter
  Ends-subscriptions id e s P w r (ran v a p b) =
      ap (λ r. r.1.adapter.subscriptions) b
      ∙ run_strategy-subscriptions e s v
      ∙ ap (λ a. a.subscriptions) a.adapter
