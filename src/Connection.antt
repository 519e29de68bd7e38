-- ===== src/Connection.antt =====
-- What a connection does with a message: `onClientMessage`, `isRateLimited` and
-- `isAuthenticationRequired` of src/adapters/web-socket-adapter.ts, and
-- src/factories/message-handler-factory.ts.
pub mod Untouched
pub mod Guards
pub mod Subscriptions
pub mod Reach
use nostream.Prelude.{
  ℕ, suc, ◌+◌, Bool, true, false, not, ◌&&◌, ◌||◌, Option, none, some, List, [], ◌∷◌, ◌++◌,
  if◌then◌else◌,
}
use nostream.Prelude.Text.{Text, text}
use nostream.Prelude.Decimal.{decimal}
use nostream.Action.{Action, Outcome, done, failed, Thrown, pure, gets, modify, catch, ◌>>=◌, ◌>>◌}
use nostream.Event.{Event}
use nostream.Settings.{Settings, RateLimit, MessageLimits, chain}
use nostream.Messages.{
  IncomingMessage, event_in, auth_in, req_in, close_in, OutgoingMessage, create_notice_message,
  create_command_result, create_auth_message,
}
use nostream.Adapter.{Adapter, send_message, set_new_auth_challenge}
use nostream.World.{World, date_now, with_cache}
use nostream.EventHandler.{Context, listed_in}
use nostream.EventHandler.Stages.{handle_event, handle_auth}
use nostream.Subscribe.{Ramda, handle_subscribe, handle_unsubscribe}

-- What `JSON.parse` and the validation by the schemas make of a message: a message, or a
-- `SyntaxError` or `ValidationError` with a text.
pub data Decoded : Type 0 where
  valid : IncomingMessage → Decoded
  malformed : Text → Decoded

-- What the connection calls outside the repository: the decoder, and `randomBytes(16)` in hex, by
-- the number of the reading of the clock that goes with it.
pub record Peer : Type 0 where
  pub ramda : Ramda
  pub decode : Text → Decoded
  pub random : ℕ → Text

unfoldable pub message_limit_key : Text → RateLimit → Text
message_limit_key address limit = address ++ (text ":message:" ++ decimal limit.period)

abbrev list_of {ℓ} : {A : Type ℓ} → Option (List A) → List A
list_of none = []
list_of (some l) = l

-- `settings.limits?.message`
abbrev pub message_limits : Settings → Option MessageLimits
message_limits settings = chain (λ l. l.message) settings.limits

module _ {D C : Type 0} (context : Context D C) (peer : Peer) where
  message_limit_loop : Text → Bool → List RateLimit → Action (World D C) Bool
  message_limit_loop address limited [] = pure limited
  message_limit_loop address limited (limit ∷ limits) =
      with_cache (context.limiter.hit (message_limit_key address limit) 1 limit.period limit.rate)
      >>= λ is_limited. message_limit_loop address (limited || is_limited) limits

  unfoldable pub is_message_rate_limited : Action (World D C) Bool
  unfolding message_limit_loop
  is_message_rate_limited w =
      let limits = message_limits context.settings in
      if listed_in (chain (λ l. l.ip_whitelist) limits) w.adapter.client_address
      then pure false w
      else message_limit_loop w.adapter.client_address false
          (list_of (chain (λ l. l.rate_limits) limits)) w

  -- `this.sendMessage(message)`
  abbrev pub send : OutgoingMessage → Action (World D C) (Unit {0})
  send m = modify (λ w. record w { adapter = send_message m w.adapter })

  unfoldable pub demand_authentication : Event → Action (World D C) Bool
  demand_authentication e w =
      let challenge = peer.random w.ticks in
      (do
        now ← date_now context.host.clock
        modify (λ w. record w { adapter = set_new_auth_challenge now challenge w.adapter })
        send (create_command_result e.id false (text "rejected: unauthorized"))
        send (create_auth_message challenge)
        pure true)
        w

  -- AUTH, CLOSE and REQ are excluded, so that of the cases of the `switch` only EVENT is reached.
  unfoldable pub is_authentication_required : IncomingMessage → Action (World D C) Bool
  is_authentication_required (event_in e) w =
      if not w.adapter.authenticated && context.settings.authentication_enabled
      then demand_authentication e w
      else pure false w
  is_authentication_required (auth_in e) w = pure false w
  is_authentication_required (req_in id filters) w = pure false w
  is_authentication_required (close_in id) w = pure false w

  -- The handler that `messageHandlerFactory` makes, on the message.
  unfoldable pub handle_message : IncomingMessage → Action (World D C) (Unit {0})
  handle_message (event_in e) w = handle_event context (some w.adapter.client_address) e w
  handle_message (auth_in e) w = handle_auth context e w
  handle_message (req_in id filters) w =
      handle_subscribe peer.ramda context.settings context.events id filters w
  handle_message (close_in id) w = handle_unsubscribe id w

  unfoldable pub unless_required : IncomingMessage → Bool → Action (World D C) (Unit {0})
  unless_required m true = pure tt
  unless_required m false = handle_message m

  unfoldable pub on_decoded : Decoded → Action (World D C) (Unit {0})
  on_decoded (malformed reason) = send (create_notice_message (text "invalid: " ++ reason))
  on_decoded (valid m) = is_authentication_required m >>= unless_required m

  unfoldable pub on_limited : Text → Bool → Action (World D C) (Unit {0})
  on_limited raw true = send (create_notice_message (text "rate limited"))
  on_limited raw false = on_decoded (peer.decode raw)

  -- Whatever else is thrown is logged.
  unfoldable pub on_client_message : Text → Action (World D C) (Unit {0})
  on_client_message raw w =
      catch (is_message_rate_limited >>= on_limited raw) (λ thrown. pure tt)
        (record w { adapter = record w.adapter { alive = true } })
