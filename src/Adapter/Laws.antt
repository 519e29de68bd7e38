-- ===== src/Adapter/Laws.antt =====
-- The map of subscriptions, and which of them an event is sent to.
use nostream.Prelude.{
  ◌+◌, ◌≡◌, refl, sym, ap, ◌∙◌, inl, inr, true, some, List, [], ◌∷◌, ◌++◌, map, arith,
  if◌then◌else◌, Bool-cases, length, filter, is_some,
}
use mathlib.Core.List.{append_assoc, append-nil}
use nostream.Prelude.Text.{Text, ◌===◌, ===_iff, ===_refl}
use nostream.Event.{Event, SubscriptionFilter}
use nostream.Event.Filters.{is_matching_any}
use nostream.Messages.{OutgoingMessage, event_out, create_outgoing_event_message}
use nostream.Adapter.{
  Adapter, Subscriptions, get_subscription, set_subscription, send_message, send_to, on_send_event,
}

-- A subscription that was set is found with its filters.
pub get_subscription-set :
    (id : Text) (filters : List SubscriptionFilter) (s : Subscriptions)
    → get_subscription id (set_subscription id filters s) ≡ some filters
unfolding get_subscription set_subscription
get_subscription-set id filters [] = rw (===_refl id)
get_subscription-set id filters ((k, old) ∷ rest) = elim (Bool-cases (k === id)) [
  | inl h ↦ rw (h, h)
  | inr h ↦ rw (h, h, get_subscription-set id filters rest)
]

-- The others are as they were.
pub get_subscription-set_other :
    (id asked : Text) (filters : List SubscriptionFilter) (s : Subscriptions)
    → (asked ≡ id → ⊥)
    → get_subscription asked (set_subscription id filters s) ≡ get_subscription asked s
unfolding get_subscription set_subscription
get_subscription-set_other id asked filters [] n = elim (Bool-cases (id === asked)) [
  | inl h ↦ absurd (n (sym ((===_iff id asked).0 h)))
  | inr h ↦ rw h
]
get_subscription-set_other id asked filters ((k, old) ∷ rest) n = elim (Bool-cases (k === id)) [
  | inl h ↦ elim (Bool-cases (k === asked)) [
    | inl h' ↦ absurd (n (sym ((===_iff k asked).0 h') ∙ (===_iff k id).0 h))
    | inr h' ↦ rw (h, h')
  ]
  | inr h ↦ elim (Bool-cases (k === asked)) [
    | inl h' ↦ rw (h, h')
    | inr h' ↦ rw (h, h', get_subscription-set_other id asked filters rest n)
  ]
]

-- Setting a subscription adds one exactly where there was none by its name.
pub length-set_subscription :
    (id : Text) (filters : List SubscriptionFilter) (s : Subscriptions)
    → length (set_subscription id filters s)
      ≡ (if is_some (get_subscription id s) then length s else length s + 1)
unfolding get_subscription set_subscription
length-set_subscription id filters [] = refl
length-set_subscription id filters ((k, old) ∷ rest) = elim (Bool-cases (k === id)) [
  | inl h ↦ rw h
  | inr h ↦ ground (arith, length-set_subscription id filters rest)
]

-- The messages that an event brings: one for each subscription that has a matching filter.
abbrev pub notifications : Event → Subscriptions → List OutgoingMessage
notifications e s =
    map (λ (id, _). event_out id e) (filter (λ (_, filters). is_matching_any filters e) s)

pub send_message-sent :
    (m : OutgoingMessage) (a : Adapter)
    → a.client.is_open ≡ true
    → ((send_message m a).client.is_open ≡ true)
      × ((send_message m a).client.sent ≡ a.client.sent ++ m ∷ [])
unfolding send_message
send_message-sent m a up = (ground arith, ground arith)

send_to-sent :
    (e : Event) (s : Subscriptions) (a : Adapter)
    → a.client.is_open ≡ true
    → (send_to e s a).client.sent ≡ a.client.sent ++ notifications e s
unfolding send_to create_outgoing_event_message
send_to-sent e [] a up = sym (append-nil a.client.sent)
send_to-sent e ((id, filters) ∷ rest) a up = elim (Bool-cases (is_matching_any filters e)) [
  | inl h ↦
      let a' = send_message (create_outgoing_event_message id e) a in
      let (still, sent) = send_message-sent (create_outgoing_event_message id e) a up in
      rw (h, send_to)
        (send_to-sent e rest a' still
          ∙ ap (λ l. l ++ notifications e rest) sent
          ∙ append_assoc a.client.sent (event_out id e ∷ []) (notifications e rest))
  | inr h ↦ rw (h, send_to) (send_to-sent e rest a up)
]

-- To a client whose connection is open, an event is sent once for each subscription of which some
-- filter matches it, under that subscription's name and in the order of the map, and nothing else.
pub on_send_event-sent :
    (e : Event) (a : Adapter)
    → a.client.is_open ≡ true
    → (on_send_event e a).client.sent ≡ a.client.sent ++ notifications e a.subscriptions
unfolding on_send_event
on_send_event-sent e a up = send_to-sent e a.subscriptions a up

pub send_message-subscriptions :
    (m : OutgoingMessage) (a : Adapter) → (send_message m a).subscriptions ≡ a.subscriptions
unfolding send_message
send_message-subscriptions m a = ground arith

send_to-subscriptions :
    (e : Event) (s : Subscriptions) (a : Adapter) → (send_to e s a).subscriptions ≡ a.subscriptions
unfolding send_to
send_to-subscriptions e [] a = refl
send_to-subscriptions e ((id, filters) ∷ rest) a = elim (Bool-cases (is_matching_any filters e)) [
  | inl h ↦
      let m = create_outgoing_event_message id e in
      rw (h, send_to)
        (send_to-subscriptions e rest (send_message m a) ∙ send_message-subscriptions m a)
  | inr h ↦ rw (h, send_to) (send_to-subscriptions e rest a)
]

-- Sending an event changes no subscription.
pub on_send_event-subscriptions :
    (e : Event) (a : Adapter) → (on_send_event e a).subscriptions ≡ a.subscriptions
unfolding on_send_event
on_send_event-subscriptions e a = send_to-subscriptions e a.subscriptions a
