-- ===== src/Examples/Events.antt =====
-- The theorems on events, filters and limits, applied to the note.
use nostream.Prelude.{◌≡◌, ◌↔◌, ◌⊎◌, ◌/◌, refl, true, false, none, some, []}
use nostream.Prelude.Text.{text, ◌===◌}
use nostream.Action.{done}
use nostream.Event.Filters.{is_event_matching_filter}
use nostream.Event.Filters.Match.{Matches, is_event_matching_filter_iff}
use nostream.Event.Expiration.{get_event_expiration, is_expired_event, add_expiration_metadata}
use nostream.Limits.{can_accept_event}
use nostream.Limits.Allowed.{Allowed}
use nostream.Limits.Accept.{can_accept_event_iff}
use nostream.EventHandler.Admission.{min_balance_of, is_user_admitted}
use nostream.EventHandler.Admission.Admitted.{IsFree, MayWrite, is_user_admitted_iff}
use nostream.Repository.{User}
use nostream.Examples.{note, wanted, number, event_bounds, context}

is_event_matching_filter_iff_example :
    (is_event_matching_filter wanted note ≡ true) ↔ Matches wanted note
is_event_matching_filter_iff_example = is_event_matching_filter_iff wanted note

can_accept_event_iff_example :
    (can_accept_event (text "eeee") 2000 event_bounds note ≡ none)
    ↔ ((text "eeee" ≡ note.pubkey) ⊎ Allowed (2000 / 1000) event_bounds note)
can_accept_event_iff_example = can_accept_event_iff (text "eeee") 2000 event_bounds note

is_user_admitted_iff_example : (is_user_admitted context note [] ≡ done none) ↔ (
    IsFree context.settings context.relay_pubkey note
    ⊎ ((user : User) × (context.users.find_by_pubkey note.pubkey [] ≡ done (some user))
        × MayWrite (min_balance_of context.settings) (some user)))
is_user_admitted_iff_example = is_user_admitted_iff context note []

note-not_expired : is_expired_event number 8000 note ≡ false
unfolding is_expired_event get_event_expiration ◌===◌
note-not_expired = refl

note-expires : (add_expiration_metadata number note).expiration ≡ some 9
unfolding add_expiration_metadata get_event_expiration ◌===◌
note-expires = refl
