-- ===== src/EventHandler/Stages.antt =====
-- `handleMessage` of src/handlers/event-message-handler.ts and of auth-event-message-handler.ts.
use nostream.Prelude.{Bool, true, false, Option, none, some}
use nostream.Prelude.Text.{Text, text}
use nostream.Action.{Action, catch, ◌>>=◌}
use nostream.Event.{Event}
use nostream.Event.Expiration.{is_expired_event, add_expiration_metadata}
use nostream.Settings.{event_limits}
use nostream.Limits.{Reason, can_accept_event}
use nostream.Messages.{create_command_result, reason_text}
use nostream.Adapter.{message}
use nostream.World.{World, web_socket_emit, date_now}
use nostream.Strategies.{Strategy, event_strategy, signed_auth_event_strategy, execute}
use nostream.EventHandler.{Context, is_event_valid, is_auth_event_valid, is_rate_limited}
use nostream.EventHandler.Admission.{is_user_admitted}

module _ {D C : Type 0} (context : Context D C) where
  unfoldable pub reject : Event → Text → Action (World D C) (Unit {0})
  reject e reason = web_socket_emit (message (create_command_result e.id false reason))

  -- The event goes on to the next step, or is refused for the reason that there is.
  unfoldable pub unless_refused :
      Event → Option Reason → Action (World D C) (Unit {0}) → Action (World D C) (Unit {0})
  unless_refused e none next = next
  unless_refused e (some reason) next = reject e (reason_text reason)

  unfoldable pub unless_limited :
      Event → Bool → Action (World D C) (Unit {0}) → Action (World D C) (Unit {0})
  unless_limited e false next = next
  unless_limited e true next = reject e (text "rate-limited: slow down")

  unfoldable pub run_strategy : Event → Strategy → Action (World D C) (Unit {0})
  run_strategy e strategy =
      catch (execute context.events context.host.clock strategy e)
        (λ _. reject e (text "error: unable to process event"))

  unfoldable pub admit : Event → Strategy → Action (World D C) (Unit {0})
  admit e strategy w =
      (do
        reason ← (λ w. (is_user_admitted context e w.db, w))
        unless_refused e reason (run_strategy e strategy))
        w

  unfoldable pub accept : Event → Strategy → Action (World D C) (Unit {0})
  accept e strategy = do
    now ← date_now context.host.clock
    let limits = event_limits context.settings
    unless_refused e (can_accept_event context.relay_pubkey now limits e) (admit e strategy)

  -- From the rate limits on, the two handlers do the same.
  unfoldable pub limit : Event → Strategy → Action (World D C) (Unit {0})
  limit e strategy = do
    limited ← is_rate_limited context e
    unless_limited e limited (accept e strategy)

  unfoldable pub refuse_expired : Event → Bool → Action (World D C) (Unit {0})
  refuse_expired e true = reject e (text "event is expired")
  refuse_expired e false =
      let e' = add_expiration_metadata context.host.number e in limit e' (event_strategy e')

  unfoldable pub check_expired : Event → Action (World D C) (Unit {0})
  check_expired e = do
    now ← date_now context.host.clock
    refuse_expired e (is_expired_event context.host.number now e)

  -- `EventMessageHandler.handleMessage`, on an event from the address `remote_address`.
  unfoldable pub handle_event : Option Text → Event → Action (World D C) (Unit {0})
  handle_event remote_address e =
      let e' = record e { remote_address = remote_address } in
      unless_refused e' (is_event_valid context.host e') (check_expired e')

  -- `AuthEventMessageHandler.handleMessage`
  unfoldable pub handle_auth : Event → Action (World D C) (Unit {0})
  handle_auth e =
      unless_refused e (is_auth_event_valid context.host e) (limit e (signed_auth_event_strategy e))
