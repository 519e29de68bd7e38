-- ===== src/Settings.antt =====
-- src/@types/settings.ts: the settings that the modelled code reads. An optional field is an
-- `Option`; a field that is not listed is read by no modelled code.
use nostream.Prelude.{ℕ, Bool, Option, none, some, List}
use nostream.Prelude.Text.{Text}
use nostream.Event.{KindItem}

pub record RateLimit : Type 0 where
  pub period : ℕ
  pub rate : ℕ

pub record EventIdLimits : Type 0 where
  pub min_leading_zero_bits : Option ℕ

pub record PubkeyLimits : Type 0 where
  pub min_balance : Option ℕ
  pub min_leading_zero_bits : Option ℕ
  pub whitelist : Option (List Text)
  pub blacklist : Option (List Text)

pub record EventRateLimit : Type 0 where
  pub period : ℕ
  pub rate : ℕ
  pub kinds : Option (List KindItem)

pub record KindLimits : Type 0 where
  pub whitelist : Option (List KindItem)
  pub blacklist : Option (List KindItem)

pub record CreatedAtLimits : Type 0 where
  pub max_negative_delta : Option ℕ
  pub max_positive_delta : Option ℕ

pub record ContentLimits : Type 0 where
  pub kinds : Option (List KindItem)
  pub max_length : Option ℕ

-- `ContentLimits | ContentLimits[]`
pub data ContentSetting : Type 0 where
  single : ContentLimits → ContentSetting
  several : List ContentLimits → ContentSetting

pub record EventWhitelists : Type 0 where
  pub pubkeys : Option (List Text)
  pub ip_addresses : Option (List Text)

pub record EventLimits : Type 0 where
  pub event_id : Option EventIdLimits
  pub pubkey : Option PubkeyLimits
  pub kind : Option KindLimits
  pub created_at : Option CreatedAtLimits
  pub content : Option ContentSetting
  pub rate_limits : Option (List EventRateLimit)
  pub whitelists : Option EventWhitelists

pub record ClientSubscriptionLimits : Type 0 where
  pub max_subscriptions : Option ℕ
  pub max_filters : Option ℕ
  pub max_subscription_id_length : Option ℕ

pub record MessageLimits : Type 0 where
  pub rate_limits : Option (List RateLimit)
  pub ip_whitelist : Option (List Text)

pub record ConnectionLimits : Type 0 where
  pub rate_limits : Option (List RateLimit)
  pub ip_whitelist : Option (List Text)

-- `InvoiceLimits` and `AdmissionCheckLimits`
pub record RequestLimits : Type 0 where
  pub rate_limits : Option (List RateLimit)
  pub ip_whitelist : Option (List Text)

pub record Limits : Type 0 where
  pub invoice : Option RequestLimits
  pub admission_check : Option RequestLimits
  pub connection : Option ConnectionLimits
  -- `client.subscription`
  pub subscription : Option ClientSubscriptionLimits
  pub event : Option EventLimits
  pub message : Option MessageLimits

pub record FeeSchedule : Type 0 where
  pub enabled : Bool
  pub amount : ℕ
  -- `whitelists?.pubkeys`, `whitelists?.event_kinds`
  pub whitelist_pubkeys : Option (List Text)
  pub whitelist_event_kinds : Option (List KindItem)

pub record Payments : Type 0 where
  pub enabled : Bool
  pub processor : Text
  -- `feeSchedules?.admission`
  pub admission : Option (List FeeSchedule)

-- `network`, with the deprecated name of its setting: `remote_ip_header` and `remoteIpHeader`.
pub record Network : Type 0 where
  pub deprecated_ip_header : Option Text
  pub remote_ip_header : Option Text

pub record Settings : Type 0 where
  -- `info.name`, `info.relay_url`
  pub name : Text
  pub relay_url : Text
  pub network : Network
  -- `authentication.enabled`, `authorization?.requireAdmission`
  pub authentication_enabled : Bool
  pub require_admission : Option Bool
  pub payments : Option Payments
  pub limits : Option Limits

-- `{}`
abbrev pub no_event_limits : EventLimits
no_event_limits = record {
  event_id = none;
  pubkey = none;
  kind = none;
  created_at = none;
  content = none;
  rate_limits = none;
  whitelists = none;
}

-- `settings.limits?.event ?? {}`
abbrev pub event_limits_of : Option Limits → EventLimits
event_limits_of none = no_event_limits
event_limits_of (some limits) = elim limits.event [ none ↦ no_event_limits | some l ↦ l ]

abbrev pub event_limits : Settings → EventLimits
event_limits settings = event_limits_of settings.limits

-- `o?.field`, for a field that is itself optional.
abbrev pub chain {ℓ κ} : {A : Type ℓ} {B : Type κ} → (A → Option B) → Option A → Option B
chain field none = none
chain field (some a) = field a
