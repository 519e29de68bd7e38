-- ===== src/EventHandler/Admission/Fees.antt =====
-- The admission fees that apply to an event, for `isUserAdmitted` of
-- src/handlers/event-message-handler.ts.
use nostream.Prelude.{
  ◌≡◌, refl, ◌↔◌, inl, inr, Bool, true, false, Option, none, some, List, [], ◌∷◌, arith, any,
  filter, any_iff, All, Bool-cases,
}
use nostream.Prelude.Text.{starts_with_iff, HasPrefix}
use nostream.Event.{Event}
use nostream.Settings.{FeeSchedule}
use nostream.Limits.Allowed.{Covers, NotListed, is_event_kind_or_range_match_iff}
use nostream.EventHandler.Admission.{some_of, is_applicable_fee, is_free}

-- The fee is enabled, and neither the author nor the kind is on its white list.
abbrev pub FeeApplies : Event → FeeSchedule → Type 0
FeeApplies e fee =
    (fee.enabled ≡ true)
    × NotListed (HasPrefix e.pubkey) fee.whitelist_pubkeys
    × NotListed (Covers e.kind) fee.whitelist_event_kinds

some_of_iff {ℓ} :
    {A : Type ℓ} (P : A → Type 0) (test : A → Bool) (o : Option (List A))
    → ((a : A) → (test a ≡ true) ↔ P a)
    → (some_of test o ≡ false) ↔ NotListed P o
some_of_iff P test none h = (λ _. tt, λ _. refl)
some_of_iff P test (some list) h =
    let found = any_iff P test h list in
    (
      λ e a. absurd (ground (arith, found.1 a)),
      λ n. elim (Bool-cases (any test list)) [
        | inl here ↦ absurd (n (found.0 here))
        | inr missing ↦ missing
      ],
    )

is_applicable_fee_iff :
    (e : Event) (fee : FeeSchedule) → (is_applicable_fee e fee ≡ true) ↔ FeeApplies e fee
unfolding is_applicable_fee
is_applicable_fee_iff e fee =
    let keys = some_of_iff _ _ fee.whitelist_pubkeys (starts_with_iff e.pubkey) in
    let kinds = some_of_iff _ _ fee.whitelist_event_kinds (is_event_kind_or_range_match_iff e) in
    (
      λ h. (ground arith, keys.0 (ground arith), kinds.0 (ground arith)),
      λ (a, b, c). ground (arith, keys.1 b, kinds.1 c),
    )

-- No fee in the list applies.
abbrev pub NoFee : Event → Option (List FeeSchedule) → Type 0
NoFee e none = Unit
NoFee e (some fees) = All (λ fee. ¬ FeeApplies e fee) fees

no_fee_sound :
    (e : Event) (fees : List FeeSchedule)
    → filter (is_applicable_fee e) fees ≡ []
    → All (λ fee. ¬ FeeApplies e fee) fees
no_fee_sound e [] h = tt
no_fee_sound e (fee ∷ fees) h = (
  λ applies. absurd (ground (arith, (is_applicable_fee_iff e fee).1 applies)),
  no_fee_sound e fees (ground arith),
)

no_fee_complete :
    (e : Event) (fees : List FeeSchedule)
    → All (λ fee. ¬ FeeApplies e fee) fees
    → filter (is_applicable_fee e) fees ≡ []
no_fee_complete e [] h = refl
no_fee_complete e (fee ∷ fees) (n, ns) = elim (Bool-cases (is_applicable_fee e fee)) [
  | inl applies ↦ absurd (n ((is_applicable_fee_iff e fee).0 applies))
  | inr not_here ↦ ground (arith, no_fee_complete e fees ns)
]

pub is_free_iff :
    (e : Event) (fees : Option (List FeeSchedule)) → (is_free e fees ≡ true) ↔ NoFee e fees
is_free_iff e none = (λ _. tt, λ _. refl)
is_free_iff e (some fees) =
    (λ h. no_fee_sound e fees (ground arith), λ n. ground (arith, no_fee_complete e fees n))
