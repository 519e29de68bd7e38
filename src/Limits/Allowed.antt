-- ===== src/Limits/Allowed.antt =====
-- The events that the limits of the settings allow, for `canAcceptEvent` of
-- src/handlers/event-message-handler.ts.
use nostream.Prelude.{
  ℕ, ◌+◌, ◌≤◌, ◌<◌, ◌≡◌, ◌↔◌, true, Option, none, some, List, [], ◌∷◌, arith, any, length, Any, All,
  any_iff,
}
use nostream.Prelude.Text.{HasPrefix}
use nostream.Event.{Event, KindItem, one, range}
use nostream.Event.Kinds.{is_event_kind_or_range_match}
use nostream.Pow.{get_event_proof_of_work, get_pubkey_proof_of_work}
use nostream.Settings.{EventLimits, ContentLimits, ContentSetting, single, several, chain}

-- The kind is the listed one, or lies in the listed range, ends included.
abbrev pub Covers : ℕ → KindItem → Type 0
Covers kind (one k) = k ≡ kind
Covers kind (range first last) = (first ≤ kind) × (kind ≤ last)

pub is_event_kind_or_range_match_iff :
    (event : Event) (item : KindItem)
    → (is_event_kind_or_range_match event item ≡ true) ↔ Covers event.kind item
unfolding is_event_kind_or_range_match
is_event_kind_or_range_match_iff event (one k) = (λ h. ground arith, λ e. ground arith)
is_event_kind_or_range_match_iff event (range a b) =
    (λ h. (ground arith, ground arith), λ e. ground arith)

pub any_kind_iff :
    (event : Event) (items : List KindItem)
    → (any (is_event_kind_or_range_match event) items ≡ true) ↔ Any (Covers event.kind) items
any_kind_iff event items = any_iff _ _ (is_event_kind_or_range_match_iff event) items

-- An optional bound, which counts only if it is above 0.
abbrev pub Bound : (ℕ → Type 0) → Option ℕ → Type 0
Bound P none = Unit
Bound P (some n) = 0 < n → P n

-- Some listed item has the property, if a list is given and is not empty.
abbrev pub Listed {ℓ} : {A : Type ℓ} → (A → Type 0) → Option (List A) → Type ℓ
Listed P none = Unit
Listed P (some []) = Unit
Listed P (some (x ∷ xs)) = Any P (x ∷ xs)

abbrev pub NotListed {ℓ} : {A : Type ℓ} → (A → Type 0) → Option (List A) → Type ℓ
NotListed P none = Unit
NotListed P (some xs) = ¬ Any P xs

abbrev pub AppliesTo : ℕ → Option (List KindItem) → Type 0
AppliesTo kind none = Unit
AppliesTo kind (some items) = Any (Covers kind) items

abbrev pub ContentFits : Event → ContentLimits → Type 0
ContentFits event limit =
    AppliesTo event.kind limit.kinds → Bound (λ most. length event.content ≤ most) limit.max_length

abbrev pub ContentsFit : Event → Option ContentSetting → Type 0
ContentsFit event none = Unit
ContentsFit event (some (single limit)) = ContentFits event limit
ContentsFit event (some (several limits)) = All (ContentFits event) limits

-- The limits allow the event at the time `now`, in seconds.
pub record Allowed (now : ℕ) (limits : EventLimits) (event : Event) : Type 0 where
  pub content : ContentsFit event limits.content
  pub not_too_new :
      Bound
        (λ delta. event.created_at ≤ now + delta)
        (chain (λ c. c.max_positive_delta) limits.created_at)
  pub not_too_old :
      Bound
        (λ delta. now ≤ event.created_at + delta)
        (chain (λ c. c.max_negative_delta) limits.created_at)
  pub id_work :
      Bound
        (λ least. least ≤ get_event_proof_of_work event.id)
        (chain (λ c. c.min_leading_zero_bits) limits.event_id)
  pub pubkey_work :
      Bound
        (λ least. least ≤ get_pubkey_proof_of_work event.pubkey)
        (chain (λ c. c.min_leading_zero_bits) limits.pubkey)
  pub pubkey_listed : Listed (HasPrefix event.pubkey) (chain (λ c. c.whitelist) limits.pubkey)
  pub pubkey_not_banned :
      NotListed (HasPrefix event.pubkey) (chain (λ c. c.blacklist) limits.pubkey)
  pub kind_listed : Listed (Covers event.kind) (chain (λ c. c.whitelist) limits.kind)
  pub kind_not_banned : NotListed (Covers event.kind) (chain (λ c. c.blacklist) limits.kind)
