-- ===== src/Messages.antt =====
-- src/@types/messages.ts and src/utils/messages.ts: the messages of the protocol, and the texts of
-- the reasons that the handlers give.
use nostream.Prelude.{Bool, List, ◌++◌}
use nostream.Prelude.Text.{Text, text}
use nostream.Prelude.Decimal.{decimal}
use nostream.Event.{Event, SubscriptionFilter}
use nostream.Limits.{
  Reason, content_too_long, too_far_in_future, too_far_in_past, low_pow, low_pubkey_pow,
  pubkey_not_allowed, kind_not_allowed, id_mismatch, bad_signature, not_admitted,
  insufficient_balance, auth_failed,
}

-- What a validated message from a client may be.
pub data IncomingMessage : Type 0 where
  event_in : Event → IncomingMessage
  auth_in : Event → IncomingMessage
  req_in : Text → List SubscriptionFilter → IncomingMessage
  close_in : Text → IncomingMessage

-- What the relay sends: EVENT, AUTH, EOSE, NOTICE and OK.
pub data OutgoingMessage : Type 0 where
  event_out : Text → Event → OutgoingMessage
  auth_out : Text → OutgoingMessage
  eose_out : Text → OutgoingMessage
  notice_out : Text → OutgoingMessage
  ok_out : Text → Bool → Text → OutgoingMessage

unfoldable pub create_notice_message : Text → OutgoingMessage
create_notice_message notice = notice_out notice

unfoldable pub create_outgoing_event_message : Text → Event → OutgoingMessage
create_outgoing_event_message subscription_id event = event_out subscription_id event

unfoldable pub create_end_of_stored_events_notice_message : Text → OutgoingMessage
create_end_of_stored_events_notice_message subscription_id = eose_out subscription_id

unfoldable pub create_command_result : Text → Bool → Text → OutgoingMessage
create_command_result event_id successful message = ok_out event_id successful message

unfoldable pub create_auth_message : Text → OutgoingMessage
create_auth_message challenge = auth_out challenge

unfoldable pub reason_text : Reason → Text
reason_text (content_too_long most) =
    text "rejected: content is longer than " ++ (decimal most ++ text " bytes")
reason_text (too_far_in_future delta) =
    text "rejected: created_at is more than " ++ (decimal delta ++ text " seconds in the future")
reason_text (too_far_in_past delta) =
    text "rejected: created_at is more than " ++ (decimal delta ++ text " seconds in the past")
reason_text (low_pow pow least) =
    text "pow: difficulty " ++ (decimal pow ++ (text "<" ++ decimal least))
reason_text (low_pubkey_pow pow least) =
    text "pow: pubkey difficulty " ++ (decimal pow ++ (text "<" ++ decimal least))
reason_text pubkey_not_allowed = text "blocked: pubkey not allowed"
reason_text (kind_not_allowed kind) =
    text "blocked: event kind " ++ (decimal kind ++ text " not allowed")
reason_text id_mismatch = text "invalid: event id does not match"
reason_text bad_signature = text "invalid: event signature verification failed"
reason_text not_admitted = text "blocked: pubkey not admitted"
reason_text insufficient_balance = text "blocked: insufficient balance"
reason_text auth_failed = text "invalid: auth verification failed"
