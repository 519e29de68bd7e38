-- ===== src/Subscribe/Bounds.antt =====
-- Which subscriptions `canSubscribe` of src/handlers/subscribe-message-handler.ts lets through, and
-- the bound on how many a connection has.
use nostream.Prelude.{
  ℕ, ◌+◌, ◌≤◌, ◌<◌, ◌≡◌, ◌≢◌, ◌↔◌, refl, ◌∙◌, ◌⊎◌, inl, inr, Bool, true, false, not, ◌&&◌, Option,
  none, some, List, [], ◌∷◌, arith, if◌then◌else◌, Bool-cases, Option-cases, length, ltb, is_some,
  get_or_default,
}
use nostream.Prelude.Text.{Text}
use nostream.Action.{Outcome, done, Thrown}
use nostream.Event.{Event, SubscriptionFilter}
use nostream.Settings.{Settings, ClientSubscriptionLimits}
use nostream.Adapter.{
  Adapter, Subscriptions, get_subscription, set_subscription, emit, listen, message, subscribe,
  send_message, on_subscribed,
}
use nostream.Adapter.Laws.{length-set_subscription}
use nostream.Repository.{EventRepository}
use nostream.Strategies.Effects.{Outcome-cases}
use nostream.World.{World}
use nostream.Subscribe.{
  Ramda, SubscribeReason, duplicate, too_many_subscriptions, too_many_filters, can_subscribe,
  subscription_limits, send_each, select, has_filters, is_equal_to, check_id_length, end_stream,
  fetch_and_send, answer_subscribe, handle_subscribe,
}

-- What the limits ask of a subscription with the name `id`, where `subscriptions` are there.
pub record Permitted (ramda : Ramda) (l : ClientSubscriptionLimits) (subscriptions : Subscriptions)
    (id : Text) (filters : List SubscriptionFilter) : Type 0 where
  -- It does not repeat the one by its name.
  pub fresh :
      (old : List SubscriptionFilter)
      → get_subscription id subscriptions ≡ some old
      → old ≢ []
      → ramda.equals filters old ≡ false
  -- A limit of 0 is none. One that replaces a subscription that has filters needs no room.
  pub room :
      (m : ℕ)
      → l.max_subscriptions ≡ some m
      → (m ≡ 0)
        ⊎ (has_filters (get_subscription id subscriptions) ≡ true)
        ⊎ (length subscriptions < m)
  pub few : (m : ℕ) → l.max_filters ≡ some m → (m ≡ 0) ⊎ (length filters ≤ m)
  pub short : (m : ℕ) → l.max_subscription_id_length ≡ some m → length id ≤ m

has_filters-[] :
    (o : Option (List SubscriptionFilter)) (old : List SubscriptionFilter)
    → o ≡ some old
    → old ≢ []
    → has_filters o ≡ true
has_filters-[] none old e n = absurd (ground arith)
has_filters-[] (some []) old e n = absurd (n (ground arith))
has_filters-[] (some (f ∷ fs)) old e n = refl

is_equal_to-some :
    (ramda : Ramda) (filters : List SubscriptionFilter) (o : Option (List SubscriptionFilter))
    (old : List SubscriptionFilter)
    → o ≡ some old
    → is_equal_to ramda filters o ≡ ramda.equals filters old
is_equal_to-some ramda filters o old e = rw e

repeats_sound :
    (ramda : Ramda) (filters : List SubscriptionFilter) (o : Option (List SubscriptionFilter))
    → ((old : List SubscriptionFilter) → o ≡ some old → old ≢ [] → ramda.equals filters old ≡ false)
    → (has_filters o && is_equal_to ramda filters o) ≡ false
repeats_sound ramda filters none h = refl
repeats_sound ramda filters (some []) h = refl
repeats_sound ramda filters (some (f ∷ fs)) h = h (f ∷ fs) refl (λ e. absurd (ground arith))

-- No test of three rejects, and the last one does not either.
passed_iff :
    (a b c : Bool) (x y z : SubscribeReason) (end : Outcome (Option SubscribeReason))
    → ((if a then done (some x) else if b then done (some y) else if c then done (some z) else end)
        ≡ done none)
      ↔ ((a ≡ false) × (b ≡ false) × (c ≡ false) × (end ≡ done none))
passed_iff a b c x y z end = ground arith

-- A limit that is absent or 0 does not bound.
within_iff :
    (o : Option ℕ) (n : ℕ)
    → ((ltb 0 (get_or_default 0 o) && ltb (get_or_default 0 o) n) ≡ false)
      ↔ ((m : ℕ) → o ≡ some m → (m ≡ 0) ⊎ (n ≤ m))
within_iff none n = (λ h m e. absurd (ground arith), λ h. refl)
within_iff (some k) n = (λ h m e. ground arith, λ h. ground (arith, h k refl))

room_iff :
    (o : Option ℕ) (has : Bool) (n : ℕ)
    → ((ltb 0 (get_or_default 0 o) && (not has && ltb (get_or_default 0 o) (n + 1))) ≡ false)
      ↔ ((m : ℕ) → o ≡ some m → (m ≡ 0) ⊎ (has ≡ true) ⊎ (n < m))
room_iff none has n = (λ h m e. absurd (ground arith), λ h. refl)
room_iff (some k) has n = (λ h m e. ground arith, λ h. ground (arith, h k refl))

check_id_length_iff :
    (id : Text) (l : ClientSubscriptionLimits)
    → (check_id_length id (some l) ≡ done none)
      ↔ ((m : ℕ) → l.max_subscription_id_length ≡ some m → length id ≤ m)
check_id_length_iff id l = elim (Option-cases l.max_subscription_id_length) [
  | inl h ↦ (λ ok m e. absurd (ground arith), λ p. rw h)
  | inr (k, h) ↦ (λ ok m e. ground arith, λ p. ground (arith, p k h))
]

-- Where there are limits on subscriptions, a subscription is let through exactly when it is
-- permitted: it does not repeat the one by its name, there is room for it, it has no more filters
-- than the limit, and its name is no longer than the limit.
pub can_subscribe_iff :
    (ramda : Ramda) (l : ClientSubscriptionLimits) (subscriptions : Subscriptions) (id : Text)
    (filters : List SubscriptionFilter)
    → (can_subscribe ramda (some l) subscriptions id filters ≡ done none)
      ↔ Permitted ramda l subscriptions id filters
unfolding can_subscribe
can_subscribe_iff ramda l subscriptions id filters =
    let o = get_subscription id subscriptions in
    let passed =
      passed_iff (has_filters o && is_equal_to ramda filters o)
        (ltb 0 (get_or_default 0 l.max_subscriptions)
          && (not (has_filters o)
              && ltb (get_or_default 0 l.max_subscriptions) (length subscriptions + 1)))
        (ltb 0 (get_or_default 0 l.max_filters)
          && ltb (get_or_default 0 l.max_filters) (length filters))
        (duplicate id) (too_many_subscriptions (get_or_default 0 l.max_subscriptions))
        (too_many_filters (get_or_default 0 l.max_filters)) (check_id_length id (some l)) in
    let room = room_iff l.max_subscriptions (has_filters o) (length subscriptions) in
    let few = within_iff l.max_filters (length filters) in
    (
      λ ok.
          let (a, b, c, d) = passed.0 ok in
          record {
            fresh = λ old e n.
                ground (arith, a, has_filters-[] o old e n, is_equal_to-some ramda filters o old e);
            room = room.0 b;
            few = few.0 c;
            short = (check_id_length_iff id l).0 d;
          },
      λ p. passed.1 (
        repeats_sound ramda filters o p.fresh,
        room.1 p.room,
        few.1 p.few,
        (check_id_length_iff id l).1 p.short,
      ),
    )

pub message-subscriptions :
    (m : _) (a : Adapter) → (emit (message m) a).subscriptions ≡ a.subscriptions
unfolding emit listen send_message
message-subscriptions m a = ground arith

send_each-subscriptions :
    (id : Text) (events : List Event) (a : Adapter)
    → (send_each id events a).subscriptions ≡ a.subscriptions
unfolding send_each
send_each-subscriptions id [] a = refl
send_each-subscriptions id (e ∷ events) a =
    send_each-subscriptions id events _ ∙ message-subscriptions _ a

is_some-has_filters :
    (o : Option (List SubscriptionFilter)) → has_filters o ≡ true → is_some o ≡ true
is_some-has_filters none h = h
is_some-has_filters (some filters) h = refl

length_bound :
    (id : Text) (filters : List SubscriptionFilter) (s : Subscriptions) (m : ℕ)
    → length s ≤ m
    → (has_filters (get_subscription id s) ≡ true) ⊎ (length s < m)
    → length (set_subscription id filters s) ≤ m
length_bound id filters s m le h = elim h [
  | inl has ↦
      ground (
        arith,
        length-set_subscription id filters s,
        is_some-has_filters (get_subscription id s) has,
      )
  | inr lt ↦ elim (Bool-cases (is_some (get_subscription id s))) [
    | inl there ↦ ground (arith, length-set_subscription id filters s)
    | inr missing ↦ ground (arith, length-set_subscription id filters s)
  ]
]

subscribed_bound :
    (id : Text) (filters : List SubscriptionFilter) (a : Adapter) (m : ℕ)
    → length a.subscriptions ≤ m
    → (has_filters (get_subscription id a.subscriptions) ≡ true) ⊎ (length a.subscriptions < m)
    → length (emit (subscribe id filters) a).subscriptions ≤ m
unfolding emit listen on_subscribed
subscribed_bound id filters a m le h =
    ground (arith, length_bound id filters a.subscriptions m le h)

module _ {D C : Type 0} (ramda : Ramda) (settings : Settings) (repository : EventRepository D) where
  end_stream-subscriptions :
      (id : Text) (broken : Option Thrown) (w : World D C)
      → (end_stream ramda settings repository id broken w).1.adapter.subscriptions
        ≡ w.adapter.subscriptions
  unfolding end_stream
  end_stream-subscriptions id none w = message-subscriptions _ w.adapter
  end_stream-subscriptions id (some thrown) w = refl

  fetch_and_send-subscriptions :
      (id : Text) (filters : List SubscriptionFilter) (w : World D C)
      → (fetch_and_send ramda settings repository id filters w).1.adapter.subscriptions
        ≡ w.adapter.subscriptions
  unfolding fetch_and_send
  fetch_and_send-subscriptions id filters w =
      elim (Outcome-cases (repository.find_by_filters filters w.db)) [
        | inr (t, h) ↦ rw h
        | inl (found, h) ↦ rw h (
            end_stream-subscriptions id found.broken _
            ∙ send_each-subscriptions id (select filters found.rows) w.adapter)
      ]

  -- Where the settings bound the number of subscriptions by `m`, and m is not 0, a connection that
  -- has no more than `m` has no more after a REQ, whatever is asked and however it ends.
  pub handle_subscribe-bound :
      (l : ClientSubscriptionLimits) (m : ℕ) (id : Text) (filters : List SubscriptionFilter)
      (w : World D C)
      → subscription_limits settings ≡ some l
      → l.max_subscriptions ≡ some m
      → 0 < m
      → length w.adapter.subscriptions ≤ m
      → length (handle_subscribe ramda settings repository id filters w).1.adapter.subscriptions ≤ m
  unfolding handle_subscribe answer_subscribe
  handle_subscribe-bound l m id filters w has bounded positive le =
      let fs = ramda.uniq filters in
      let c = can_subscribe ramda (subscription_limits settings) w.adapter.subscriptions id fs in
      elim (Outcome-cases c) [
        | inr (t, h) ↦ rw h le
        | inl (some reason, h) ↦ rw h (rw (message-subscriptions _ w.adapter) le)
        | inl (none, h) ↦
            let p = (can_subscribe_iff ramda l w.adapter.subscriptions id fs).0 (rw⁻¹ has h) in
            rw h (
              rw (fetch_and_send-subscriptions id fs _) (
                subscribed_bound id fs w.adapter m le
                  (elim (p.room m bounded) [ inl z ↦ absurd (ground arith) | inr room ↦ room ])))
      ]
