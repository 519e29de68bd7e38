-- ===== src/Examples/Workers.antt =====
-- The theorems on the mirroring worker, the payments and the server, applied to values.
use nostream.Prelude.{
  ℕ, suc, ◌+◌, ◌≡◌, refl, true, not, ◌&&◌, none, some, List, [], ◌∷◌, is_some, get_elem?,
}
use nostream.Prelude.Int.{pos}
use nostream.Prelude.Text.{text, ◌===◌}
use nostream.Action.{done}
use nostream.Limits.{can_accept_event}
use nostream.Adapter.{Adapter}
use nostream.Mirror.{MirrorContext, MirrorState, can_mirror_event, on_message}
use nostream.Mirror.Accept.{can_mirror_event-can_accept_event}
use nostream.Mirror.Ends.{MirrorEnds, on_message-MirrorEnds}
use nostream.Payments.{
  Invoice, sats, pending, completed, PaymentsContext, PaymentsState, confirm_invoice,
}
use nostream.Payments.Atomic.{Confirmation, confirm_invoice-Confirmation}
use nostream.Payments.Service.{ServiceContext, create_invoice}
use nostream.Payments.Service.Creation.{Creation, create_invoice-Creation}
use nostream.Server.{registered, unregistered, on_server_broadcast}
use nostream.Server.Broadcast.{Reached, on_server_broadcast-Reached}
use nostream.Event.{Event}
use nostream.Examples.{note, wanted, settings, event_bounds, host, events, users, adapter}

can_mirror_event-can_accept_event_example :
    can_mirror_event (text "eeee") 2000 event_bounds note ≡ (
      not (text "eeee" === note.pubkey)
      && not (is_some (can_accept_event (text "eeee") 2000 event_bounds note)))
can_mirror_event-can_accept_event_example =
    can_mirror_event-can_accept_event (text "eeee") 2000 event_bounds note

abbrev mirror : MirrorContext (List Event)
mirror = record {
  host = host;
  settings = settings;
  config = record {
    address = text "wss://m";
    filters = some (wanted ∷ []);
    limits = some none;
    skip_admission_check = none;
  };
  relay_pubkey = text "eeee";
  subscription_id = text "mirror-1";
  is_worker = true;
  events = events;
  users = users;
  merge = λ own _. own;
  parse = λ _. some (text "mirror-1", note);
}

abbrev mirror_state : MirrorState (List Event)
mirror_state = record { db = []; since = 0; ticks = 3; sent = [] }

on_message-MirrorEnds_example :
    MirrorEnds mirror
      (some (text "mirror-1", note))
      mirror_state
      (on_message mirror (text "[]") mirror_state)
on_message-MirrorEnds_example = on_message-MirrorEnds mirror (text "[]") mirror_state

-- The database counts the invoices confirmed and the users admitted.
abbrev pub payments : PaymentsContext (ℕ × ℕ)
payments = record {
  settings = record settings {
    payments = some (record {
      enabled = true;
      processor = text "zebedee";
      admission = some (
          record {
            enabled = true;
            amount = 1000;
            whitelist_pubkeys = none;
            whitelist_event_kinds = none;
          }
          ∷ []);
    });
  };
  now = 5000;
  begin = λ db. done db;
  commit = λ db. done db;
  confirm_invoice_in_db = λ _ _ _ (invoices, admitted). (done tt, (suc invoices, admitted));
  upsert_admitted = λ _ _ (invoices, admitted). (done 1, (invoices, suc admitted));
}

abbrev pub invoice : Invoice
invoice = record {
  id = text "i";
  pubkey = text "b1b1";
  bolt11 = text "lnbc";
  amount_requested = pos 1;
  amount_paid = some (pos 1);
  unit = sats;
  status = completed;
  description = text "Admission";
  confirmed_at = some 4000;
  expires_at = none;
  updated_at = 3000;
  created_at = 2000;
  verify_url = none;
}

abbrev pub payments_state : PaymentsState (ℕ × ℕ)
payments_state = record { db = (0, 0); trx = none; announced = [] }

confirm_invoice-Confirmation_example :
    Confirmation payments invoice payments_state (confirm_invoice payments invoice payments_state)
confirm_invoice-Confirmation_example = confirm_invoice-Confirmation payments invoice payments_state

-- The processor takes every request, and says that every invoice has been paid.
abbrev pub service : ServiceContext (ℕ × ℕ)
service = record {
  payments = payments;
  relay_pubkey = text "eeee";
  processor_create_invoice = λ amount description _. done (record {
    id = text "j";
    bolt11 = text "lnbc";
    amount_requested = amount;
    description = description;
    unit = sats;
    status = pending;
    expires_at = none;
    created_at = 4000;
    verify_url = none;
  });
  processor_get_invoice = λ i. done (record {
    id = some i.id;
    pubkey = none;
    bolt11 = none;
    unit = none;
    status = some completed;
    confirmed_at = some (some 4500);
  });
  upsert_user = λ _ db. (done 1, db);
  upsert_invoice = λ _ (invoices, admitted). (done 1, (suc invoices, admitted));
  update_status = λ _ _ db. (done none, db);
  find_pending_invoices = λ _ _ _. done (record invoice { status = pending } ∷ []);
  create_event = λ _ db. (done 1, db);
  identify = λ e. done e;
  sign = λ e. done e;
  send = λ _. done tt;
  month_later = λ now. now + 2678400000;
}

create_invoice-Creation_example :
    Creation service
      (text "b1b1")
      (pos 1)
      (text "Admission")
      payments_state
      (create_invoice service (text "b1b1") (pos 1) (text "Admission") payments_state)
create_invoice-Creation_example =
    create_invoice-Creation service (text "b1b1") (pos 1) (text "Admission") payments_state

on_server_broadcast-Reached_example :
    (b : Adapter) × (get_elem?
        (on_server_broadcast note (unregistered true ∷ registered adapter ∷ []))
        1
      ≡ some (registered b))
    × Reached note adapter b
on_server_broadcast-Reached_example =
    on_server_broadcast-Reached note (unregistered true ∷ registered adapter ∷ []) 1 adapter refl
