-- ===== src/Mirror.antt =====
-- src/app/static-mirroring-worker.ts: what the worker does with a message of the relay that it
-- mirrors.
pub mod Accept
pub mod Ends
use nostream.Prelude.{
  ℕ, suc, ◌+◌, ◌-◌, ◌/◌, Bool, true, false, not, ◌&&◌, ◌||◌, Option, none, some, List, [], ◌∷◌,
  ◌++◌, ltb, ◌==◌, if◌then◌else◌, any, length, get_or_default,
}
use nostream.Prelude.Int.{ltb_ℤ}
use nostream.Prelude.Text.{Text, ◌===◌, starts_with}
use nostream.Action.{Outcome, done, failed}
use nostream.Event.{Event, SubscriptionFilter, KindItem}
use nostream.Event.Kinds.{is_event_kind_or_range_match}
use nostream.Event.Filters.{is_matching_any}
use nostream.Event.Expiration.{is_expired_event, add_expiration_metadata}
use nostream.Pow.{get_event_proof_of_work, get_pubkey_proof_of_work}
use nostream.Settings.{
  Settings, EventLimits, ContentLimits, ContentSetting, single, several, Payments, FeeSchedule,
  event_limits, no_event_limits, chain,
}
use nostream.Limits.{applies_to}
use nostream.Repository.{EventRepository, UserRepository, User}
use nostream.EventHandler.{Host, is_event_id_valid, is_event_signature_valid}
use nostream.EventHandler.Admission.{is_free, payments_enabled}

-- `typeof n !== 'undefined' && n > 0 && test(n)`
abbrev positive_and : (ℕ → Bool) → Option ℕ → Bool
positive_and test none = false
positive_and test (some n) = ltb 0 n && test n

-- `typeof list !== 'undefined' && list.length > 0 && test(list)`
abbrev filled_and {ℓ} : {A : Type ℓ} → (List A → Bool) → Option (List A) → Bool
filled_and test none = false
filled_and test (some list) = ltb 0 (length list) && test list

unfoldable pub is_over_length : Event → ContentLimits → Bool
is_over_length event limit =
    positive_and (λ most. ltb most (length event.content) && applies_to event limit.kinds)
      limit.max_length

unfoldable pub is_content_refused : Event → Option ContentSetting → Bool
is_content_refused event none = false
is_content_refused event (some (single limit)) = is_over_length event limit
is_content_refused event (some (several limits)) = any (is_over_length event) limits

-- `canAcceptEvent` of the worker; `limits` are the settings' with the mirror's merged in.
unfoldable pub can_mirror_event : Text → ℕ → EventLimits → Event → Bool
can_mirror_event relay_pubkey now_ms limits event =
    let now = now_ms / 1000 in
    if relay_pubkey === event.pubkey
    then false
    else if is_content_refused event limits.content
    then false
    else if positive_and (λ delta. ltb (now + delta) event.created_at)
        (chain (λ c. c.max_positive_delta) limits.created_at)
    then false
    else if positive_and (λ delta. ltb (event.created_at + delta) now)
        (chain (λ c. c.max_negative_delta) limits.created_at)
    then false
    else if positive_and (λ least. ltb (get_event_proof_of_work event.id) least)
        (chain (λ c. c.min_leading_zero_bits) limits.event_id)
    then false
    else if positive_and (λ least. ltb (get_pubkey_proof_of_work event.pubkey) least)
        (chain (λ c. c.min_leading_zero_bits) limits.pubkey)
    then false
    else if filled_and (λ list. not (any (starts_with event.pubkey) list))
        (chain (λ c. c.whitelist) limits.pubkey)
    then false
    else if filled_and (any (starts_with event.pubkey)) (chain (λ c. c.blacklist) limits.pubkey)
    then false
    else if filled_and (λ list. not (any (is_event_kind_or_range_match event) list))
        (chain (λ c. c.whitelist) limits.kind)
    then false
    else if filled_and (any (is_event_kind_or_range_match event))
        (chain (λ c. c.blacklist) limits.kind)
    then false
    else true

-- `Mirror` of src/@types/settings.ts: both `limits` and `limits.event` may be absent.
pub record MirrorConfig : Type 0 where
  pub address : Text
  pub filters : Option (List SubscriptionFilter)
  pub limits : Option (Option EventLimits)
  pub skip_admission_check : Option Bool

-- What the worker is given, with what it calls outside the repository: the merging of limits by
-- `mergeDeepRight` of ramda, and the parsing of a message, which is `some` for an array that begins
-- with "EVENT", the name of a subscription and an event.
pub record MirrorContext (D : Type 0) : Type 0 where
  pub host : Host
  pub settings : Settings
  pub config : MirrorConfig
  pub relay_pubkey : Text
  pub subscription_id : Text
  pub is_worker : Bool
  pub events : EventRepository D
  pub users : UserRepository D
  pub merge : EventLimits → EventLimits → EventLimits
  pub parse : Text → Option (Text × Event)

-- `since` is in seconds; `sent` is what was handed to the primary process.
pub record MirrorState (D : Type 0) : Type 0 where
  pub db : D
  pub since : ℕ
  pub ticks : ℕ
  pub sent : List (Event × Text)

abbrev pub is_true : Option Bool → Bool
is_true none = false
is_true (some b) = b

-- What is asked of a user who has been looked up.
unfoldable pub may_mirror : Option ℕ → Option User → Bool
may_mirror min_balance none = false
may_mirror min_balance (some user) =
    if not user.is_admitted
    then false
    else if positive_and (λ least. ltb_ℤ user.balance least) min_balance
    then false
    else true

abbrev pub looked_up : (Option User → Bool) → Outcome (Option User) → Outcome Bool
looked_up test (failed t) = failed t
looked_up test (done user) = done (test user)

module _ {D : Type 0} (context : MirrorContext D) where
  unfoldable pub is_author_admitted : Event → D → Outcome Bool
  is_author_admitted e db =
      if is_true context.config.skip_admission_check
      then done true
      else if not (payments_enabled context.settings.payments)
      then done true
      else if is_free e (chain (λ p. p.admission) context.settings.payments)
      then done true
      else looked_up
          (may_mirror (chain (λ p. p.min_balance) (event_limits context.settings).pubkey))
          (context.users.find_by_pubkey e.pubkey db)

  -- The event is stored, and sent on where the process is a worker and it was new.
  unfoldable pub store : Event → MirrorState D → MirrorState D
  store e w =
      let inserted = context.events.create e w.db in
      let v = record w {
        db = inserted.1;
        since = context.host.clock w.ticks / 1000 - 30;
        ticks = w.ticks + 1;
      } in
      if not (inserted.0 == 0) && context.is_worker
      then record v { sent = v.sent ++ (e, context.config.address) ∷ [] }
      else v

  unfoldable pub store_if : Event → Outcome Bool → MirrorState D → MirrorState D
  store_if e (failed t) w = w
  store_if e (done false) w = w
  store_if e (done true) w = store e w

  -- Without limits of the mirror, reading their `event` throws, and the worker logs it.
  abbrev can_accept : ℕ → Event → Bool
  can_accept now_ms e = elim context.config.limits [
    | none ↦ false
    | some own ↦
        can_mirror_event context.relay_pubkey now_ms
          (context.merge (event_limits context.settings) (get_or_default no_event_limits own)) e
  ]

  -- The expiration has been looked at, with one reading of the clock.
  unfoldable pub after_expiration : Event → MirrorState D → MirrorState D
  after_expiration e w =
      let v = record w { ticks = w.ticks + 1 } in
      if not (can_accept (context.host.clock w.ticks) e)
      then v
      else store_if e (is_author_admitted e v.db) v

  -- Without filters the test throws, and the worker logs it.
  abbrev matches : Event → Bool
  matches e = elim context.config.filters [
    | none ↦ false
    | some filters ↦ is_matching_any filters e
  ]

  unfoldable pub on_event : Event → MirrorState D → MirrorState D
  on_event e w =
      if not (matches e)
      then w
      else if not (is_event_id_valid context.host e && is_event_signature_valid context.host e)
      then w
      else let v = record w { ticks = w.ticks + 1 } in
        if is_expired_event context.host.number (context.host.clock w.ticks) e
        then v
        else after_expiration (add_expiration_metadata context.host.number e) v

  unfoldable pub on_parsed : Option (Text × Event) → MirrorState D → MirrorState D
  on_parsed none w = w
  on_parsed (some (id, e)) w = if id === context.subscription_id then on_event e w else w

  -- The listener of `message`.
  unfoldable pub on_message : Text → MirrorState D → MirrorState D
  on_message raw w = on_parsed (context.parse raw) w
