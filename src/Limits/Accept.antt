-- ===== src/Limits/Accept.antt =====
-- `canAcceptEvent` against the description of the events that the limits allow.
use nostream.Prelude.{
  ℕ, ◌/◌, ◌≡◌, ◌↔◌, ◌⊎◌, inl, inr, true, Option, none, arith, or_else, Bool-cases,
}
use nostream.Prelude.Text.{Text, HasPrefix, ◌===◌, ===_iff, starts_with, starts_with_iff}
use nostream.Event.{Event}
use nostream.Settings.{EventLimits}
use nostream.Limits.{Reason, low_pow, low_pubkey_pow, limits_reason, can_accept_event}
use nostream.Limits.Allowed.{is_event_kind_or_range_match_iff, Allowed}
use nostream.Limits.Reasons.{
  content_setting_reason_iff, future_reason_iff, past_reason_iff, pow_reason_iff,
  whitelist_reason_iff, blacklist_reason_iff,
}

-- Nine reasons, none of which is given.
no_reason_iff :
    (a b c d e f g h i : Option Reason)
    → (or_else a
          (or_else b (or_else c (or_else d (or_else e (or_else f (or_else g (or_else h i)))))))
        ≡ none)
      ↔ ((a ≡ none)
          × (b ≡ none)
          × (c ≡ none)
          × (d ≡ none)
          × (e ≡ none)
          × (f ≡ none)
          × (g ≡ none)
          × (h ≡ none)
          × (i ≡ none))
no_reason_iff a b c d e f g h i = ground arith

module _ (now : ℕ) (limits : EventLimits) (event : Event) where
  prefix_iff :
      (prefix : Text) → (starts_with event.pubkey prefix ≡ true) ↔ HasPrefix event.pubkey prefix
  prefix_iff = starts_with_iff event.pubkey

  limits_reason_sound : limits_reason now limits event ≡ none → Allowed now limits event
  unfolding limits_reason
  limits_reason_sound h =
      let (a, b, c, d, e, f, g, k, l) = (no_reason_iff _ _ _ _ _ _ _ _ _).0 h in
      record {
        content = (content_setting_reason_iff event limits.content).0 a;
        not_too_new = (future_reason_iff now event _).0 b;
        not_too_old = (past_reason_iff now event _).0 c;
        id_work = (pow_reason_iff low_pow _ _).0 d;
        pubkey_work = (pow_reason_iff low_pubkey_pow _ _).0 e;
        pubkey_listed = (whitelist_reason_iff _ _ prefix_iff _ _).0 f;
        pubkey_not_banned = (blacklist_reason_iff _ _ prefix_iff _ _).0 g;
        kind_listed = (whitelist_reason_iff _ _ (is_event_kind_or_range_match_iff event) _ _).0 k;
        kind_not_banned =
            (blacklist_reason_iff _ _ (is_event_kind_or_range_match_iff event) _ _).0 l;
      }

  limits_reason_complete : Allowed now limits event → limits_reason now limits event ≡ none
  unfolding limits_reason
  limits_reason_complete a = (no_reason_iff _ _ _ _ _ _ _ _ _).1 (
    (content_setting_reason_iff event limits.content).1 a.content,
    (future_reason_iff now event _).1 a.not_too_new,
    (past_reason_iff now event _).1 a.not_too_old,
    (pow_reason_iff low_pow _ _).1 a.id_work,
    (pow_reason_iff low_pubkey_pow _ _).1 a.pubkey_work,
    (whitelist_reason_iff _ _ prefix_iff _ _).1 a.pubkey_listed,
    (blacklist_reason_iff _ _ prefix_iff _ _).1 a.pubkey_not_banned,
    (whitelist_reason_iff _ _ (is_event_kind_or_range_match_iff event) _ _).1 a.kind_listed,
    (blacklist_reason_iff _ _ (is_event_kind_or_range_match_iff event) _ _).1 a.kind_not_banned,
  )

-- `canAcceptEvent` gives no reason exactly when the event is the relay's own or the limits allow
-- it: its content is no longer than each limit for its kind, its time is at most the two deltas
-- away from `now_ms`, in seconds, its id and its author show the work asked for, and its author
-- and kind are on the white lists and not on the black lists. Limits of 0, empty lists and
-- settings that are left out ask for nothing.
pub can_accept_event_iff :
    (relay_pubkey : Text) (now_ms : ℕ) (limits : EventLimits) (event : Event)
    → (can_accept_event relay_pubkey now_ms limits event ≡ none)
      ↔ ((relay_pubkey ≡ event.pubkey) ⊎ Allowed (now_ms / 1000) limits event)
unfolding can_accept_event
can_accept_event_iff relay_pubkey now_ms limits event =
    let same = ===_iff relay_pubkey event.pubkey in
    (
      λ h. elim (Bool-cases (relay_pubkey === event.pubkey)) [
        | inl own ↦ inl (same.0 own)
        | inr foreign ↦ inr (limits_reason_sound _ limits event (ground arith))
      ],
      λ h. elim h [
        | inl own ↦ ground (arith, same.1 own)
        | inr allowed ↦ ground (arith, limits_reason_complete _ limits event allowed)
      ],
    )
