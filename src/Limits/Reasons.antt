-- ===== src/Limits/Reasons.antt =====
-- Each reason that `canAcceptEvent` of src/handlers/event-message-handler.ts may give, against the
-- limit that it stands for.
use nostream.Prelude.{
  ℕ, ◌+◌, ◌≤◌, ◌≡◌, refl, ◌↔◌, inl, inr, Bool, true, Option, none, some, List, [], ◌∷◌, arith, any,
  length, or_else-none_iff, All, any_iff, Bool-cases,
}
use nostream.Event.{Event, KindItem}
use nostream.Settings.{ContentLimits, ContentSetting, single, several}
use nostream.Limits.{
  Reason, applies_to, length_reason, content_reason, contents_reason, content_setting_reason,
  future_reason, past_reason, pow_reason, whitelist_reason, blacklist_reason,
}
use nostream.Limits.Allowed.{
  any_kind_iff, Bound, Listed, NotListed, AppliesTo, ContentFits, ContentsFit,
}

applies_to_iff :
    (event : Event) (kinds : Option (List KindItem))
    → (applies_to event kinds ≡ true) ↔ AppliesTo event.kind kinds
applies_to_iff event none = (λ _. tt, λ _. refl)
applies_to_iff event (some items) = any_kind_iff event items

length_reason_iff :
    (event : Event) (kinds : Option (List KindItem)) (o : Option ℕ)
    → (length_reason event kinds o ≡ none)
      ↔ (AppliesTo event.kind kinds → Bound (λ most. length event.content ≤ most) o)
unfolding length_reason
length_reason_iff event kinds none = (λ _ _. tt, λ _. refl)
length_reason_iff event kinds (some most) =
    let applies = applies_to_iff event kinds in
    (
      λ h a p. ground (arith, applies.1 a),
      λ f. elim (Bool-cases (applies_to event kinds)) [
        | inl a ↦ let fits = f (applies.0 a) in ground arith
        | inr n ↦ ground arith
      ],
    )

content_reason_iff :
    (event : Event) (limit : ContentLimits)
    → (content_reason event limit ≡ none) ↔ ContentFits event limit
unfolding content_reason
content_reason_iff event limit = length_reason_iff event limit.kinds limit.max_length

contents_reason_iff :
    (event : Event) (limits : List ContentLimits)
    → (contents_reason event limits ≡ none) ↔ All (ContentFits event) limits
unfolding contents_reason
contents_reason_iff event [] = (λ _. tt, λ _. refl)
contents_reason_iff event (limit ∷ limits) =
    let first = content_reason_iff event limit in
    let others = contents_reason_iff event limits in
    let both = or_else-none_iff (content_reason event limit) (contents_reason event limits) in
    (
      λ h. let (a, b) = both.0 h in (first.0 a, others.0 b),
      λ (a, b). both.1 (first.1 a, others.1 b),
    )

pub content_setting_reason_iff :
    (event : Event) (o : Option ContentSetting)
    → (content_setting_reason event o ≡ none) ↔ ContentsFit event o
unfolding content_setting_reason
content_setting_reason_iff event none = (λ _. tt, λ _. refl)
content_setting_reason_iff event (some (single limit)) = content_reason_iff event limit
content_setting_reason_iff event (some (several limits)) = contents_reason_iff event limits

pub future_reason_iff :
    (now : ℕ) (event : Event) (o : Option ℕ)
    → (future_reason now event o ≡ none) ↔ Bound (λ delta. event.created_at ≤ now + delta) o
unfolding future_reason
future_reason_iff now event none = (λ _. tt, λ _. refl)
future_reason_iff now event (some delta) = (λ h p. ground arith, λ h. ground arith)

pub past_reason_iff :
    (now : ℕ) (event : Event) (o : Option ℕ)
    → (past_reason now event o ≡ none) ↔ Bound (λ delta. now ≤ event.created_at + delta) o
unfolding past_reason
past_reason_iff now event none = (λ _. tt, λ _. refl)
past_reason_iff now event (some delta) = (λ h p. ground arith, λ h. ground arith)

pub pow_reason_iff :
    (reason : ℕ → ℕ → Reason) (pow : ℕ) (o : Option ℕ)
    → (pow_reason reason pow o ≡ none) ↔ Bound (λ least. least ≤ pow) o
unfolding pow_reason
pow_reason_iff reason pow none = (λ _. tt, λ _. refl)
pow_reason_iff reason pow (some least) = (λ h p. ground arith, λ h. ground arith)

module _ {ℓ} {A : Type ℓ} (P : A → Type 0) (test : A → Bool)
    (h : (a : A) → (test a ≡ true) ↔ P a) where
  pub whitelist_reason_iff :
      (reason : Reason) (o : Option (List A)) → (whitelist_reason reason test o ≡ none) ↔ Listed P o
  unfolding whitelist_reason
  whitelist_reason_iff reason none = (λ _. tt, λ _. refl)
  whitelist_reason_iff reason (some []) = (λ _. tt, λ _. refl)
  whitelist_reason_iff reason (some (x ∷ xs)) =
      let found = any_iff P test h (x ∷ xs) in
      (λ e. found.0 (ground arith), λ a. ground (arith, found.1 a))

  pub blacklist_reason_iff :
      (reason : Reason) (o : Option (List A))
      → (blacklist_reason reason test o ≡ none) ↔ NotListed P o
  unfolding blacklist_reason
  blacklist_reason_iff reason none = (λ _. tt, λ _. refl)
  blacklist_reason_iff reason (some []) = (λ _ a. elim a [ ], λ _. refl)
  blacklist_reason_iff reason (some (x ∷ xs)) =
      let found = any_iff P test h (x ∷ xs) in
      (
        λ e a. absurd (ground (arith, found.1 a)),
        λ n. elim (Bool-cases (any test (x ∷ xs))) [
          | inl here ↦ absurd (n (found.0 here))
          | inr missing ↦ ground arith
        ],
      )
