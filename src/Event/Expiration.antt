-- ===== src/Event/Expiration.antt =====
-- The expiration of an event: `getEventExpiration` and `isExpiredEvent` of src/utils/event.ts, and
-- `addExpirationMetadata` of src/handlers/event-message-handler.ts.
pub mod Laws
use nostream.Prelude.{
  ℕ, zero, suc, ◌/◌, ◌^◌, Bool, true, false, ◌&&◌, Option, none, some, [], ◌∷◌, ltb, leb, ◌==◌,
  if◌then◌else◌, length, get_elem?, find,
}
use nostream.Prelude.Text.{Text, is_text}
use nostream.Event.{Tag, Event, expiration_tag}

-- What `Number(text)` gives, as far as the program tells: a safe integer that is not negative, or
-- any other number (negative, fractional, too large, NaN), on which the program's tests fail.
pub data Number : Type 0 where
  safe : ℕ → Number
  other : Number

abbrev is_expiration_tag : Tag → Bool
is_expiration_tag tag = leb 2 (length tag) && is_text (get_elem? tag 0) expiration_tag

-- `const [, rawExpirationTime] = … ?? []`
abbrev second : Option Tag → Option Text
second none = none
second (some tag) = get_elem? tag 1

-- `Math.log10(n) < 10` says that `n` is below 10 ^ 10; `Math.log10(0)` is -Infinity.
abbrev seconds_only : Number → Option ℕ
seconds_only (safe n) = if ltb n (10 ^ 10) then some n else none
seconds_only other = none

-- Conversion of text to number is the language's, over floats: it is a parameter.
module _ (number : Text → Number) where
  abbrev expiration_of : Option Text → Option ℕ
  expiration_of none = none
  expiration_of (some []) = none
  expiration_of (some (c ∷ raw)) = seconds_only (number (c ∷ raw))

  unfoldable pub get_event_expiration : Event → Option ℕ
  get_event_expiration event = expiration_of (second (find is_expiration_tag event.tags))

  -- `!expirationTime` is true of `undefined` and of 0. `now_ms` is `new Date().getTime()`.
  abbrev expired_at : ℕ → Option ℕ → Bool
  expired_at now none = false
  expired_at now (some zero) = false
  expired_at now (some (suc t)) = leb (suc t) now

  unfoldable pub is_expired_event : ℕ → Event → Bool
  is_expired_event now_ms event = expired_at (now_ms / 1000) (get_event_expiration event)

  abbrev with_expiration : Event → Option ℕ → Event
  with_expiration event none = event
  with_expiration event (some zero) = event
  with_expiration event (some (suc t)) = record event { expiration = some (suc t) }

  unfoldable pub add_expiration_metadata : Event → Event
  add_expiration_metadata event = with_expiration event (get_event_expiration event)
