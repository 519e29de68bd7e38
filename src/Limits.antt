-- ===== src/Limits.antt =====
-- What the relay's settings ask of an event: `canAcceptEvent` of
-- src/handlers/event-message-handler.ts. `undefined` is `none`, a reason is a value of `Reason`.
pub mod Allowed
mod Reasons
pub mod Accept
use nostream.Prelude.{
  ℕ, ◌+◌, ◌/◌, Bool, true, false, not, ◌&&◌, ◌||◌, Option, none, some, List, [], ◌∷◌, ltb,
  if◌then◌else◌, any, length, or_else,
}
use nostream.Prelude.Text.{Text, ◌===◌, starts_with}
use nostream.Event.{Event, KindItem}
use nostream.Event.Kinds.{is_event_kind_or_range_match}
use nostream.Pow.{get_event_proof_of_work, get_pubkey_proof_of_work}
use nostream.Settings.{
  EventLimits, ContentLimits, ContentSetting, single, several, CreatedAtLimits, EventIdLimits,
  PubkeyLimits, KindLimits, chain,
}

-- Why an event is refused; `Messages.reason_text` has the texts.
pub data Reason : Type 0 where
  content_too_long : ℕ → Reason
  too_far_in_future : ℕ → Reason
  too_far_in_past : ℕ → Reason
  low_pow : ℕ → ℕ → Reason
  low_pubkey_pow : ℕ → ℕ → Reason
  pubkey_not_allowed : Reason
  kind_not_allowed : ℕ → Reason
  id_mismatch : Reason
  bad_signature : Reason
  not_admitted : Reason
  insufficient_balance : Reason
  auth_failed : Reason

-- `!Array.isArray(kinds) || kinds.some(isEventKindOrRangeMatch(event))`
abbrev pub applies_to : Event → Option (List KindItem) → Bool
applies_to event none = true
applies_to event (some kinds) = any (is_event_kind_or_range_match event) kinds

unfoldable pub length_reason : Event → Option (List KindItem) → Option ℕ → Option Reason
length_reason event kinds none = none
length_reason event kinds (some most) =
    if ltb 0 most && (ltb most (length event.content) && applies_to event kinds)
    then some (content_too_long most)
    else none

unfoldable pub content_reason : Event → ContentLimits → Option Reason
unfolding length_reason
content_reason event limit = length_reason event limit.kinds limit.max_length

-- The loop over `limits.content`.
unfoldable pub contents_reason : Event → List ContentLimits → Option Reason
contents_reason event [] = none
contents_reason event (limit ∷ limits) =
    or_else (content_reason event limit) (contents_reason event limits)

unfoldable pub content_setting_reason : Event → Option ContentSetting → Option Reason
content_setting_reason event none = none
content_setting_reason event (some (single limit)) = content_reason event limit
content_setting_reason event (some (several limits)) = contents_reason event limits

unfoldable pub future_reason : ℕ → Event → Option ℕ → Option Reason
future_reason now event none = none
future_reason now event (some delta) =
    if ltb 0 delta && ltb (now + delta) event.created_at
    then some (too_far_in_future delta)
    else none

-- `event.created_at < now - delta`, over the integers.
unfoldable pub past_reason : ℕ → Event → Option ℕ → Option Reason
past_reason now event none = none
past_reason now event (some delta) =
    if ltb 0 delta && ltb (event.created_at + delta) now then some (too_far_in_past delta) else none

unfoldable pub pow_reason : (ℕ → ℕ → Reason) → ℕ → Option ℕ → Option Reason
pow_reason reason pow none = none
pow_reason reason pow (some least) =
    if ltb 0 least && ltb pow least then some (reason pow least) else none

unfoldable pub whitelist_reason {ℓ} :
    {A : Type ℓ} → Reason → (A → Bool) → Option (List A) → Option Reason
whitelist_reason reason test none = none
whitelist_reason reason test (some list) =
    if ltb 0 (length list) && not (any test list) then some reason else none

unfoldable pub blacklist_reason {ℓ} :
    {A : Type ℓ} → Reason → (A → Bool) → Option (List A) → Option Reason
blacklist_reason reason test none = none
blacklist_reason reason test (some list) =
    if ltb 0 (length list) && any test list then some reason else none

-- The tests in their order; the first one that fails gives the reason. `now` is in seconds.
unfoldable pub limits_reason : ℕ → EventLimits → Event → Option Reason
limits_reason now limits event = or_else (content_setting_reason event limits.content) (
    or_else (future_reason now event (chain (λ c. c.max_positive_delta) limits.created_at)) (
      or_else (past_reason now event (chain (λ c. c.max_negative_delta) limits.created_at)) (
        or_else
          (pow_reason low_pow (get_event_proof_of_work event.id)
            (chain (λ c. c.min_leading_zero_bits) limits.event_id))
          (or_else
            (pow_reason low_pubkey_pow (get_pubkey_proof_of_work event.pubkey)
              (chain (λ c. c.min_leading_zero_bits) limits.pubkey))
            (or_else
              (whitelist_reason pubkey_not_allowed (starts_with event.pubkey)
                (chain (λ c. c.whitelist) limits.pubkey))
              (or_else
                (blacklist_reason pubkey_not_allowed (starts_with event.pubkey)
                  (chain (λ c. c.blacklist) limits.pubkey))
                (or_else
                  (whitelist_reason (kind_not_allowed event.kind)
                    (is_event_kind_or_range_match event) (chain (λ c. c.whitelist) limits.kind))
                  (blacklist_reason (kind_not_allowed event.kind)
                    (is_event_kind_or_range_match event)
                    (chain (λ c. c.blacklist) limits.kind)))))))))

-- The relay's own events pass. `now_ms` is `Date.now()`.
unfoldable pub can_accept_event : Text → ℕ → EventLimits → Event → Option Reason
can_accept_event relay_pubkey now_ms limits event =
    if relay_pubkey === event.pubkey then none else limits_reason (now_ms / 1000) limits event
