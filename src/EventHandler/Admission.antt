-- ===== src/EventHandler/Admission.antt =====
-- `isUserAdmitted` of src/handlers/event-message-handler.ts.
pub mod Fees
pub mod Admitted
use nostream.Prelude.{
  ℕ, ◌<◌, ◌≡◌, refl, ◌↔◌, ◌⊎◌, inl, inr, Bool, true, false, not, ◌&&◌, ◌||◌, Option, none, some,
  List, [], ◌∷◌, arith, if◌then◌else◌, ltb, any, filter, any_iff, All, get_or_default, Bool-cases,
}
use nostream.Prelude.Text.{Text, ◌===◌, ===_iff, starts_with, starts_with_iff, HasPrefix}
use nostream.Prelude.Int.{ltb_ℤ}
use nostream.Action.{Outcome, done, failed}
use nostream.Event.{Event}
use nostream.Event.Kinds.{is_event_kind_or_range_match}
use nostream.Settings.{Settings, FeeSchedule, Payments, event_limits, chain}
use nostream.Limits.{Reason, not_admitted, insufficient_balance}
use nostream.Limits.Allowed.{Covers, NotListed, is_event_kind_or_range_match_iff}
use nostream.Repository.{User}
use nostream.EventHandler.{Context}

-- `o?.some(test)`, which is falsy where `o` is undefined
abbrev pub some_of {ℓ} : {A : Type ℓ} → (A → Bool) → Option (List A) → Bool
some_of test none = false
some_of test (some list) = any test list

unfoldable pub is_applicable_fee : Event → FeeSchedule → Bool
is_applicable_fee e fee =
    fee.enabled
    && (not (some_of (starts_with e.pubkey) fee.whitelist_pubkeys)
        && not (some_of (is_event_kind_or_range_match e) fee.whitelist_event_kinds))

-- `!Array.isArray(feeSchedules) || !feeSchedules.length`
abbrev pub is_free : Event → Option (List FeeSchedule) → Bool
is_free e none = true
is_free e (some fees) = elim (filter (is_applicable_fee e) fees) [ [] ↦ true | _ ∷ _ ↦ false ]

abbrev pub payments_enabled : Option Payments → Bool
payments_enabled none = false
payments_enabled (some p) = p.enabled

unfoldable pub user_reason : ℕ → Option User → Option Reason
user_reason min_balance none = some not_admitted
user_reason min_balance (some user) =
    if not user.is_admitted
    then some not_admitted
    else if ltb 0 min_balance && ltb_ℤ user.balance min_balance
    then some insufficient_balance
    else none

abbrev pub map_outcome {ℓ κ} : {A : Type ℓ} {B : Type κ} → (A → B) → Outcome A → Outcome B
map_outcome f (done a) = done (f a)
map_outcome f (failed e) = failed e

abbrev pub min_balance_of : Settings → ℕ
min_balance_of settings =
    get_or_default 0 (chain (λ p. p.min_balance) (event_limits settings).pubkey)

-- The settings that decide whether the user has to be looked up.
unfoldable pub is_admission_needed : Settings → Text → Event → Bool
is_admission_needed settings relay_pubkey e =
    if not (payments_enabled settings.payments || get_or_default false settings.require_admission)
    then false
    else if relay_pubkey === e.pubkey
    then false
    else if payments_enabled settings.payments
        && is_free e (chain (λ p. p.admission) settings.payments)
    then false
    else true

unfoldable pub is_user_admitted : {D C : Type 0} → Context D C → Event → D → Outcome (Option Reason)
is_user_admitted context e db =
    if is_admission_needed context.settings context.relay_pubkey e
    then map_outcome (user_reason (min_balance_of context.settings))
        (context.users.find_by_pubkey e.pubkey db)
    else done none
