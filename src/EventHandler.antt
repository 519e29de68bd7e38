-- ===== src/EventHandler.antt =====
-- src/handlers/event-message-handler.ts and src/handlers/auth-event-message-handler.ts. Each early
-- return of `handleMessage` is the branch of a step below, and the rest is the next step.
pub mod Admission
pub mod Stages
pub mod Ends
pub mod Accepted
use nostream.Prelude.{
  ℕ, Bool, true, false, not, ◌&&◌, ◌||◌, Option, none, some, List, [], ◌∷◌, ◌++◌, map, ltb,
  if◌then◌else◌, any, filter, length, get_or_default,
}
use nostream.Prelude.Text.{Text, text, ◌===◌, starts_with, includes}
use nostream.Prelude.Int.{ltb_ℤ}
use nostream.Prelude.Decimal.{decimal}
use nostream.Action.{Action, Outcome, done, failed, Thrown, pure, catch, ◌>>=◌, ◌>>◌}
use nostream.Event.{Tag, Event, KindItem, one, range}
use nostream.Event.Kinds.{is_event_kind_or_range_match}
use nostream.Event.Auth.{is_signed_auth_event}
use nostream.Event.Expiration.{Number, is_expired_event, add_expiration_metadata}
use nostream.Settings.{
  Settings, EventLimits, EventRateLimit, EventWhitelists, FeeSchedule, Payments, event_limits,
  chain,
}
use nostream.Limits.{
  Reason, can_accept_event, id_mismatch, bad_signature, not_admitted, insufficient_balance,
  auth_failed,
}
use nostream.Messages.{create_command_result, reason_text}
use nostream.Adapter.{Adapter, message}
use nostream.Repository.{EventRepository, UserRepository, User, RateLimiter}
use nostream.World.{World, web_socket_emit, date_now, with_cache}
use nostream.Strategies.{Strategy, event_strategy, signed_auth_event_strategy, execute}

-- `serializeEvent`: the parts of an event that its id stands for.
pub record CanonicalEvent : Type 0 where
  pub pubkey : Text
  pub created_at : ℕ
  pub kind : ℕ
  pub tags : List Tag
  pub content : Text

unfoldable pub serialize_event : Event → CanonicalEvent
serialize_event e = record {
  pubkey = e.pubkey;
  created_at = e.created_at;
  kind = e.kind;
  tags = e.tags;
  content = e.content;
}

-- What the handlers call outside the repository: the hash of the serialized event in hex,
-- the Schnorr verification of a signature, an id and a public key, the conversion of text to a
-- number, and the clock.
pub record Host : Type 0 where
  pub hash : CanonicalEvent → Text
  pub verify : Text → Text → Text → Bool
  pub number : Text → Number
  pub clock : ℕ → ℕ

-- The handler's fields, and the relay's own public key.
pub record Context (D C : Type 0) : Type 0 where
  pub host : Host
  pub settings : Settings
  pub relay_pubkey : Text
  pub events : EventRepository D
  pub users : UserRepository D
  pub limiter : RateLimiter C

-- `isEventIdValid` and `isEventSignatureValid` of src/utils/event.ts
unfoldable pub is_event_id_valid : Host → Event → Bool
is_event_id_valid host e = e.id === host.hash (serialize_event e)

unfoldable pub is_event_signature_valid : Host → Event → Bool
is_event_signature_valid host e = host.verify e.sig e.id e.pubkey

unfoldable pub is_event_valid : Host → Event → Option Reason
is_event_valid host e =
    if not (is_event_id_valid host e)
    then some id_mismatch
    else if not (is_event_signature_valid host e)
    then some bad_signature
    else none

-- The method of `AuthEventMessageHandler` that overrides it.
unfoldable pub is_auth_event_valid : Host → Event → Option Reason
is_auth_event_valid host e = elim (is_event_valid host e) [
  | some reason ↦ some reason
  | none ↦ if not (is_signed_auth_event e) then some auth_failed else none
]

-- `toString` of the handler, on kinds and on lists of kinds.
abbrev kind_text : KindItem → Text
kind_text (one k) = decimal k
kind_text (range a b) = text "[" ++ (decimal a ++ (text "," ++ (decimal b ++ text "]")))

abbrev separated : List Text → Text
separated [] = []
separated (s ∷ []) = s
separated (s ∷ t ∷ rest) = s ++ (text "," ++ separated (t ∷ rest))

abbrev kinds_suffix : Option (List KindItem) → Text
kinds_suffix none = []
kinds_suffix (some kinds) = text ":[" ++ (separated (map kind_text kinds) ++ text "]")

unfoldable pub rate_limit_key : Event → EventRateLimit → Text
rate_limit_key e limit =
    e.pubkey ++ (text ":events:" ++ (decimal limit.period ++ kinds_suffix limit.kinds))

abbrev kinds_apply : Event → Option (List KindItem) → Bool
kinds_apply e none = true
kinds_apply e (some kinds) = any (is_event_kind_or_range_match e) kinds

-- `Array.isArray(list) && list.includes(s)`
abbrev pub listed_in : Option (List Text) → Text → Bool
listed_in none s = false
listed_in (some list) s = includes s list

module _ {D C : Type 0} (context : Context D C) where
  -- One limit after the other; a limit for other kinds is skipped.
  rate_limit_loop : Event → Bool → List EventRateLimit → Action (World D C) Bool
  rate_limit_loop e limited [] = pure limited
  rate_limit_loop e limited (limit ∷ limits) =
      let skip = rate_limit_loop e limited limits in
      let hit =
        with_cache (context.limiter.hit (rate_limit_key e limit) 1 limit.period limit.rate)
        >>= λ is_limited. rate_limit_loop e (limited || is_limited) limits in
      if kinds_apply e limit.kinds then hit else skip

  abbrev rate_limits_of : Option (List EventRateLimit) → List EventRateLimit
  rate_limits_of none = []
  rate_limits_of (some limits) = limits

  -- The cases in which no limit is asked.
  abbrev is_exempt : Event → Text → EventLimits → Bool
  is_exempt e address limits =
      context.relay_pubkey === e.pubkey
      || listed_in (chain (λ w. w.pubkeys) limits.whitelists) e.pubkey
      || listed_in (chain (λ w. w.ip_addresses) limits.whitelists) address

  unfoldable pub is_rate_limited : Event → Action (World D C) Bool
  unfolding rate_limit_loop
  is_rate_limited e w =
      let limits = event_limits context.settings in
      if is_exempt e w.adapter.client_address limits
      then pure false w
      else rate_limit_loop e false (rate_limits_of limits.rate_limits) w
