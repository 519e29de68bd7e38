-- ===== src/EventHandler/Admission/Admitted.antt =====
-- Whom `isUserAdmitted` of src/handlers/event-message-handler.ts admits.
use nostream.Prelude.{
  ℕ, ◌<◌, ◌≡◌, refl, ◌↔◌, ◌⊎◌, inl, inr, Bool, true, false, not, ◌&&◌, ◌||◌, Option, none, some,
  arith, if◌then◌else◌, get_or_default, Bool-cases,
}
use nostream.Prelude.Text.{Text, ◌===◌, ===_iff}
use nostream.Prelude.Int.{ltb_ℤ}
use nostream.Action.{Outcome, done, failed}
use nostream.Event.{Event}
use nostream.Settings.{Settings, chain}
use nostream.Repository.{User}
use nostream.EventHandler.{Context}
use nostream.EventHandler.Admission.{
  is_free, payments_enabled, user_reason, map_outcome, min_balance_of, is_admission_needed,
  is_user_admitted,
}
use nostream.EventHandler.Admission.Fees.{NoFee, is_free_iff}

-- The user may write: admitted, and with the balance that is asked for, if any is.
abbrev pub MayWrite : ℕ → Option User → Type 0
MayWrite least none = ⊥
MayWrite least (some user) =
    (user.is_admitted ≡ true) × (0 < least → ltb_ℤ user.balance least ≡ false)

user_reason_iff :
    (least : ℕ) (user : Option User) → (user_reason least user ≡ none) ↔ MayWrite least user
unfolding user_reason
user_reason_iff least none = (λ h. absurd (ground arith), λ m. absurd m)
user_reason_iff least (some user) = (λ h. (ground arith, λ p. ground arith), λ (a, b). ground arith)

-- The event's author need not be admitted: neither payments nor admission are asked for, or the
-- author is the relay, or payments are enabled and no fee for admission applies to the event.
abbrev pub IsFree : Settings → Text → Event → Type 0
IsFree settings relay_pubkey e =
    ((payments_enabled settings.payments ≡ false)
      × (get_or_default false settings.require_admission ≡ false))
    ⊎ ((relay_pubkey ≡ e.pubkey)
        ⊎ ((payments_enabled settings.payments ≡ true)
            × NoFee e (chain (λ p. p.admission) settings.payments)))

abbrev needed : Bool → Bool → Bool → Bool → Bool
needed payments admission own free =
    if not (payments || admission)
    then false
    else if own
    then false
    else if payments && free
    then false
    else true

needed_sound :
    (payments admission own free : Bool)
    → needed payments admission own free ≡ false
    → ((payments ≡ false) × (admission ≡ false))
      ⊎ ((own ≡ true) ⊎ ((payments ≡ true) × (free ≡ true)))
needed_sound false false own free h = inl (refl, refl)
needed_sound payments admission true free h = inr (inl refl)
needed_sound true admission false true h = inr (inr (refl, refl))
needed_sound _ _ _ _ h = cc

is_admission_needed_iff :
    (settings : Settings) (relay_pubkey : Text) (e : Event)
    → (is_admission_needed settings relay_pubkey e ≡ false) ↔ IsFree settings relay_pubkey e
unfolding is_admission_needed
is_admission_needed_iff settings relay_pubkey e =
    let free = is_free_iff e (chain (λ p. p.admission) settings.payments) in
    let own = ===_iff relay_pubkey e.pubkey in
    let pays = payments_enabled settings.payments in
    let fees = is_free e (chain (λ p. p.admission) settings.payments) in
    (
      λ h.
          elim (needed_sound pays (get_or_default false settings.require_admission)
            (relay_pubkey === e.pubkey) fees h) [
              | inl off ↦ inl off
              | inr (inl same) ↦ inr (inl (own.0 same))
              | inr (inr (paid, none_applies)) ↦ inr (inr (paid, free.0 none_applies))
            ],
      λ f. elim f [
        | inl off ↦ ground arith
        | inr (inl same) ↦ ground (arith, own.1 same)
        | inr (inr (paid, no_fee)) ↦ ground (arith, free.1 no_fee)
      ],
    )

looked_up :
    (least : ℕ) (o : Outcome (Option User))
    → map_outcome (user_reason least) o ≡ done none
    → (user : User) × (o ≡ done (some user)) × MayWrite least (some user)
looked_up least (failed e) h = absurd (ground arith)
looked_up least (done none) h = absurd ((user_reason_iff least none).0 (ground arith))
looked_up least (done (some user)) h =
    (user, refl, (user_reason_iff least (some user)).0 (ground arith))

-- `isUserAdmitted` gives no reason exactly when the author need not be admitted, or the author is
-- found among the users, admitted, and with the minimal balance of the settings if that is above 0.
pub is_user_admitted_iff :
    {D C : Type 0} (context : Context D C) (e : Event) (db : D)
    → (is_user_admitted context e db ≡ done none) ↔ (
        IsFree context.settings context.relay_pubkey e
        ⊎ ((user : User) × (context.users.find_by_pubkey e.pubkey db ≡ done (some user))
            × MayWrite (min_balance_of context.settings) (some user)))
unfolding is_user_admitted
is_user_admitted_iff context e db =
    let free = is_admission_needed_iff context.settings context.relay_pubkey e in
    let may = user_reason_iff (min_balance_of context.settings) in
    (
      λ h. elim (Bool-cases (is_admission_needed context.settings context.relay_pubkey e)) [
        | inr not_needed ↦ inl (free.0 not_needed)
        | inl is_needed ↦ inr (looked_up (min_balance_of context.settings) _ (rw is_needed at h))
      ],
      λ f. elim f [
        | inl is_free_now ↦ ground (arith, free.1 is_free_now)
        | inr (user, found, may_write) ↦
            elim (Bool-cases (is_admission_needed context.settings context.relay_pubkey e)) [
              | inl is_needed ↦ ground (arith, (may (some user)).1 may_write)
              | inr not_needed ↦ ground arith
            ]
      ],
    )
