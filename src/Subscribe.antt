-- ===== src/Subscribe.antt =====
-- src/handlers/subscribe-message-handler.ts and src/handlers/unsubscribe-message-handler.ts. The
-- pipeline of streams is run to its end at once.
pub mod Delivery
pub mod Bounds
use nostream.Prelude.{
  ℕ, suc, ◌+◌, Bool, true, false, not, ◌&&◌, Option, none, some, List, [], ◌∷◌, ◌++◌, map, ltb,
  if◌then◌else◌, filter, length, get_or_default, is_some,
}
use nostream.Prelude.Text.{Text, text}
use nostream.Prelude.Decimal.{decimal}
use nostream.Action.{
  Action, Outcome, done, failed, Thrown, error, pure, throw, gets, modify, ◌>>=◌, ◌>>◌,
}
use nostream.Event.{Event, SubscriptionFilter}
use nostream.Event.Filters.{is_matching_any}
use nostream.Settings.{Settings, ClientSubscriptionLimits, chain}
use nostream.Messages.{
  create_notice_message, create_outgoing_event_message, create_end_of_stored_events_notice_message,
}
use nostream.Adapter.{
  Adapter, Subscriptions, get_subscription, emit, message, subscribe, unsubscribe,
}
use nostream.Repository.{DbEvent, Rows, EventRepository}
use nostream.Repository.EventRows.{to_nostr_event}
use nostream.World.{World, web_socket_emit}

-- The functions of the library `ramda` that the handler calls: `equals` on two lists of filters,
-- and `uniqWith(equals)`.
pub record Ramda : Type 0 where
  pub equals : List SubscriptionFilter → List SubscriptionFilter → Bool
  pub uniq : List SubscriptionFilter → List SubscriptionFilter

-- Why a subscription is rejected.
pub data SubscribeReason : Type 0 where
  duplicate : Text → SubscribeReason
  too_many_subscriptions : ℕ → SubscribeReason
  too_many_filters : ℕ → SubscribeReason
  id_too_long : ℕ → SubscribeReason

unfoldable pub subscribe_reason_text : SubscribeReason → Text
subscribe_reason_text (duplicate id) = text "Duplicate subscription " ++ (id ++ text ": Ignoring")
subscribe_reason_text (too_many_subscriptions most) =
    text "Too many subscriptions: Number of subscriptions must be less than or equal to "
    ++ decimal most
subscribe_reason_text (too_many_filters most) =
    text "Too many filters: Number of filters per susbscription must be less then or equal to "
    ++ decimal most
subscribe_reason_text (id_too_long most) =
    text "Subscription ID too long: Subscription ID must be less or equal to " ++ decimal most

-- `existingSubscription?.length`, as a test.
abbrev pub has_filters : Option (List SubscriptionFilter) → Bool
has_filters none = false
has_filters (some []) = false
has_filters (some (f ∷ filters)) = true

abbrev is_equal_to : Ramda → List SubscriptionFilter → Option (List SubscriptionFilter) → Bool
is_equal_to ramda filters none = false
is_equal_to ramda filters (some old) = ramda.equals filters old

-- The last test reads a field of limits that may be absent, which throws.
abbrev check_id_length : Text → Option ClientSubscriptionLimits → Outcome (Option SubscribeReason)
check_id_length id none = failed (error (text "Cannot read properties of undefined"))
check_id_length id (some limits) = elim limits.max_subscription_id_length [
  | none ↦ done none
  | some most ↦ if ltb most (length id) then done (some (id_too_long most)) else done none
]

unfoldable pub can_subscribe :
    Ramda
    → Option ClientSubscriptionLimits
    → Subscriptions
    → Text
    → List SubscriptionFilter
    → Outcome (Option SubscribeReason)
can_subscribe ramda limits subscriptions id filters =
    let existing = get_subscription id subscriptions in
    let max_subscriptions = get_or_default 0 (chain (λ l. l.max_subscriptions) limits) in
    let max_filters = get_or_default 0 (chain (λ l. l.max_filters) limits) in
    if has_filters existing && is_equal_to ramda filters existing
    then done (some (duplicate id))
    else if ltb 0 max_subscriptions
        && (not (has_filters existing) && ltb max_subscriptions (length subscriptions + 1))
    then done (some (too_many_subscriptions max_subscriptions))
    else if ltb 0 max_filters && ltb max_filters (length filters)
    then done (some (too_many_filters max_filters))
    else check_id_length id limits

-- `settings.limits?.client?.subscription`
abbrev pub subscription_limits : Settings → Option ClientSubscriptionLimits
subscription_limits settings = chain (λ l. l.subscription) settings.limits

-- `streamEach(sendEvent)`
unfoldable pub send_each : Text → List Event → Adapter → Adapter
send_each id [] a = a
send_each id (e ∷ events) a =
    send_each id events (emit (message (create_outgoing_event_message id e)) a)

-- What the filters of the pipeline let through.
unfoldable pub select : List SubscriptionFilter → List DbEvent → List Event
select filters rows =
    filter (is_matching_any filters)
      (map to_nostr_event (filter (λ row. not (is_some row.deleted_at)) rows))

module _ {D C : Type 0} (ramda : Ramda) (settings : Settings) (repository : EventRepository D) where
  -- At the end of the stream, or where it breaks.
  unfoldable pub end_stream : Text → Option Thrown → Action (World D C) (Unit {0})
  end_stream id none = web_socket_emit (message (create_end_of_stored_events_notice_message id))
  end_stream id (some thrown) = throw thrown

  unfoldable pub fetch_and_send : Text → List SubscriptionFilter → Action (World D C) (Unit {0})
  fetch_and_send id filters w =
      (do
        found ← (λ w. (repository.find_by_filters filters w.db, w))
        modify (λ w. record w { adapter = send_each id (select filters found.rows) w.adapter })
        end_stream id found.broken)
        w

  unfoldable pub answer_subscribe :
      Text → List SubscriptionFilter → Option SubscribeReason → Action (World D C) (Unit {0})
  answer_subscribe id filters (some reason) = web_socket_emit (
      message
        (create_notice_message (text "Subscription rejected: " ++ subscribe_reason_text reason)))
  answer_subscribe id filters none = do
    web_socket_emit (subscribe id filters)
    fetch_and_send id filters

  -- `SubscribeMessageHandler.handleMessage`, on the filters of the message.
  unfoldable pub handle_subscribe : Text → List SubscriptionFilter → Action (World D C) (Unit {0})
  handle_subscribe id filters w =
      (do
        reason ← (λ w. (
          can_subscribe ramda (subscription_limits settings) w.adapter.subscriptions id
              (ramda.uniq filters),
          w,
        ))
        answer_subscribe id (ramda.uniq filters) reason)
        w

-- `UnsubscribeMessageHandler.handleMessage`
unfoldable pub handle_unsubscribe : {D C : Type 0} → Text → Action (World D C) (Unit {0})
handle_unsubscribe id w = web_socket_emit (unsubscribe id) w
