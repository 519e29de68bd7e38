-- ===== src/Mirror/Accept.antt =====
-- The two copies of `canAcceptEvent`, in src/app/static-mirroring-worker.ts and in
-- src/handlers/event-message-handler.ts.
use nostream.Prelude.{
  ℕ, ◌+◌, ◌/◌, ◌≡◌, refl, Bool, true, false, not, ◌&&◌, Option, none, some, List, [], ◌∷◌, arith,
  ltb, if◌then◌else◌, any, is_some, or_else, inl, inr, Bool-cases,
}
use nostream.Prelude.Text.{Text, ◌===◌, starts_with}
use nostream.Event.{Event}
use nostream.Event.Kinds.{is_event_kind_or_range_match}
use nostream.Pow.{get_event_proof_of_work, get_pubkey_proof_of_work}
use nostream.Settings.{EventLimits, ContentLimits, ContentSetting, single, several, chain}
use nostream.Limits.{
  Reason, low_pow, low_pubkey_pow, pubkey_not_allowed, kind_not_allowed, length_reason,
  content_reason, contents_reason, content_setting_reason, future_reason, past_reason, pow_reason,
  whitelist_reason, blacklist_reason, limits_reason, can_accept_event,
}
use nostream.Mirror.{positive_and, filled_and, is_over_length, is_content_refused, can_mirror_event}

is_over_length_lem :
    (event : Event) (limit : ContentLimits)
    → is_over_length event limit ≡ is_some (content_reason event limit)
unfolding is_over_length content_reason length_reason
is_over_length_lem event limit = ground arith

contents_lem :
    (event : Event) (limits : List ContentLimits)
    → any (is_over_length event) limits ≡ is_some (contents_reason event limits)
unfolding contents_reason
contents_lem event [] = refl
contents_lem event (limit ∷ limits) =
    ground (arith, is_over_length_lem event limit, contents_lem event limits)

is_content_refused_lem :
    (event : Event) (o : Option ContentSetting)
    → is_content_refused event o ≡ is_some (content_setting_reason event o)
unfolding is_content_refused content_setting_reason
is_content_refused_lem event none = refl
is_content_refused_lem event (some (single limit)) = is_over_length_lem event limit
is_content_refused_lem event (some (several limits)) = contents_lem event limits

too_new_lem :
    (now : ℕ) (event : Event) (o : Option ℕ)
    → positive_and (λ delta. ltb (now + delta) event.created_at) o
      ≡ is_some (future_reason now event o)
unfolding future_reason
too_new_lem now event o = ground arith

too_old_lem :
    (now : ℕ) (event : Event) (o : Option ℕ)
    → positive_and (λ delta. ltb (event.created_at + delta) now) o
      ≡ is_some (past_reason now event o)
unfolding past_reason
too_old_lem now event o = ground arith

pow_lem :
    (reason : ℕ → ℕ → Reason) (pow : ℕ) (o : Option ℕ)
    → positive_and (λ least. ltb pow least) o ≡ is_some (pow_reason reason pow o)
unfolding pow_reason
pow_lem reason pow o = ground arith

whitelist_lem {ℓ} :
    {A : Type ℓ} (reason : Reason) (test : A → Bool) (o : Option (List A))
    → filled_and (λ list. not (any test list)) o ≡ is_some (whitelist_reason reason test o)
unfolding whitelist_reason
whitelist_lem reason test none = refl
whitelist_lem reason test (some list) = ground arith

blacklist_lem {ℓ} :
    {A : Type ℓ} (reason : Reason) (test : A → Bool) (o : Option (List A))
    → filled_and (any test) o ≡ is_some (blacklist_reason reason test o)
unfolding blacklist_reason
blacklist_lem reason test none = refl
blacklist_lem reason test (some list) = ground arith

-- A chain of nine tests refuses where one of the nine reasons is given.
refusals :
    (a b c d e f g h i : Option Reason)
    → (if is_some a
        then false
        else if is_some b
        then false
        else if is_some c
        then false
        else if is_some d
        then false
        else if is_some e
        then false
        else if is_some f
        then false
        else if is_some g
        then false
        else if is_some h
        then false
        else if is_some i
        then false
        else true)
      ≡ not (
          is_some (
            or_else a (
              or_else b (or_else c (or_else d (or_else e (or_else f (or_else g (or_else h i)))))))))
refusals a b c d e f g h i = ground arith

-- Under the same settings, the mirroring worker accepts exactly the events that the message handler
-- gives no reason against, less those of the relay itself.
pub can_mirror_event-can_accept_event :
    (relay_pubkey : Text) (now_ms : ℕ) (limits : EventLimits) (event : Event)
    → can_mirror_event relay_pubkey now_ms limits event ≡ (
        not (relay_pubkey === event.pubkey)
        && not (is_some (can_accept_event relay_pubkey now_ms limits event)))
unfolding can_mirror_event can_accept_event limits_reason
can_mirror_event-can_accept_event relay_pubkey now_ms limits event =
    let now = now_ms / 1000 in
    elim (Bool-cases (relay_pubkey === event.pubkey)) [
      | inl own ↦ rw own
      | inr foreign ↦
          rw
            (
              foreign,
              is_content_refused_lem event limits.content,
              too_new_lem now event (chain (λ c. c.max_positive_delta) limits.created_at),
              too_old_lem now event (chain (λ c. c.max_negative_delta) limits.created_at),
              pow_lem low_pow (get_event_proof_of_work event.id)
                  (chain (λ c. c.min_leading_zero_bits) limits.event_id),
              pow_lem low_pubkey_pow (get_pubkey_proof_of_work event.pubkey)
                  (chain (λ c. c.min_leading_zero_bits) limits.pubkey),
              whitelist_lem pubkey_not_allowed (starts_with event.pubkey)
                  (chain (λ c. c.whitelist) limits.pubkey),
              blacklist_lem pubkey_not_allowed (starts_with event.pubkey)
                  (chain (λ c. c.blacklist) limits.pubkey),
              whitelist_lem (kind_not_allowed event.kind) (is_event_kind_or_range_match event)
                  (chain (λ c. c.whitelist) limits.kind),
              blacklist_lem (kind_not_allowed event.kind) (is_event_kind_or_range_match event)
                  (chain (λ c. c.blacklist) limits.kind),
            )
            (refusals (content_setting_reason event limits.content)
              (future_reason now event (chain (λ c. c.max_positive_delta) limits.created_at))
              (past_reason now event (chain (λ c. c.max_negative_delta) limits.created_at))
              (pow_reason low_pow (get_event_proof_of_work event.id)
                (chain (λ c. c.min_leading_zero_bits) limits.event_id))
              (pow_reason low_pubkey_pow (get_pubkey_proof_of_work event.pubkey)
                (chain (λ c. c.min_leading_zero_bits) limits.pubkey))
              (whitelist_reason pubkey_not_allowed (starts_with event.pubkey)
                (chain (λ c. c.whitelist) limits.pubkey))
              (blacklist_reason pubkey_not_allowed (starts_with event.pubkey)
                (chain (λ c. c.blacklist) limits.pubkey))
              (whitelist_reason (kind_not_allowed event.kind) (is_event_kind_or_range_match event)
                (chain (λ c. c.whitelist) limits.kind))
              (blacklist_reason (kind_not_allowed event.kind) (is_event_kind_or_range_match event)
                (chain (λ c. c.blacklist) limits.kind)))
    ]
