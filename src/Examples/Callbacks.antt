-- ===== src/Examples/Callbacks.antt =====
-- The theorems on the callbacks of payments processors, applied to values.
use nostream.Prelude.{ℕ, ◌≡◌, refl, true, none, some, [], ◌∷◌, ◌++◌, concat_map}
use nostream.Prelude.Int.{pos}
use nostream.Prelude.Text.{Text, text, includes, ◌===◌}
use nostream.Action.{done}
use nostream.Payments.Service.{update_invoice_status, on_db}
use nostream.Payments.{sats, pending, completed, msats}
use nostream.Controllers.Bodies.{
  ZebedeeBody, NodelessBody, OpenNodeBody, known, SentInvoice, from_open_node_invoice,
  open_node_status,
}
use nostream.Controllers.Processors.{
  ProcessorContext, zebedee_callback, nodeless_callback, open_node_callback, write_status,
}
use nostream.Controllers.Unconfirmed.{Throws, open_node_callback-Throws}
use nostream.Controllers.Zebedee.{ZebedeeEnds, zebedee_callback-ZebedeeEnds}
use nostream.Controllers.Nodeless.{NodelessEnds, nodeless_callback-NodelessEnds}
use nostream.Controllers.Lnbits.{LnbitsContext, LnbitsRequest, lnbits_callback}
use nostream.Controllers.Acknowledged.{CallbackEnds}
use nostream.Controllers.Callback.{lnbits_callback-CallbackEnds}
use nostream.Examples.{settings}
use nostream.Examples.Workers.{service, invoice, payments_state}
use nostream.Examples.Requests.{fee, request}

-- Every HMAC is 32 zero bytes, and the invoice that is stored is pending.
abbrev lnbits : LnbitsContext (ℕ × ℕ)
lnbits = record {
  service = record service {
    payments = record service.payments {
      settings = record settings {
        payments =
            some
              (record { enabled = true; processor = text "lnbits"; admission = some (fee ∷ []) });
      };
    };
  };
  secret = some (text "s");
  hmac_sha256 = λ _ _. concat_map (λ _. 0 ∷ 0 ∷ 0 ∷ 0 ∷ []) (text "01234567");
  get_invoice = λ _. done invoice;
  find_by_id = λ _ _. done (some (record invoice { status = pending }));
}

abbrev zeros : Text
zeros = concat_map (λ _. text "00000000") (text "01234567")

abbrev callback : LnbitsRequest
callback = record {
  request = request;
  hmac = some (text "9999999999999:" ++ zeros);
  payment_hash = some zeros;
}

lnbits_callback-CallbackEnds_example :
    CallbackEnds lnbits callback payments_state (lnbits_callback lnbits callback payments_state)
lnbits_callback-CallbackEnds_example = lnbits_callback-CallbackEnds lnbits callback payments_state

-- An update of the status gives the invoice with that status.
abbrev processors : Text → ProcessorContext (ℕ × ℕ)
processors name = record {
  service = record service {
    payments = record service.payments {
      settings = record settings {
        payments = some (record { enabled = true; processor = name; admission = some (fee ∷ []) });
      };
    };
    update_status =
        λ _ status db. (done (some (record invoice { status = status; confirmed_at = none })), db);
  };
  touch = λ _ db. (done none, db);
  zebedee_ip_whitelist = some (text "1.2.3.4" ∷ []);
  hmac_sha256 = λ _ _. 1 ∷ 2 ∷ [];
  nodeless_webhook_secret = text "s";
}

abbrev zebedee_body : ZebedeeBody
zebedee_body = record {
  id = text "i";
  internal_id = text "b1b1";
  amount = done (pos 1000);
  unit = msats;
  status = known completed;
  confirmed_at = some 4000;
}

zebedee_callback-ZebedeeEnds_example :
    ZebedeeEnds
      (processors (text "zebedee"))
      request
      zebedee_body
      payments_state
      (zebedee_callback (processors (text "zebedee")) request zebedee_body payments_state)
zebedee_callback-ZebedeeEnds_example =
    zebedee_callback-ZebedeeEnds (processors (text "zebedee")) request zebedee_body payments_state

abbrev nodeless_body : NodelessBody
nodeless_body = record {
  uuid = text "i";
  request_id = text "b1b1";
  unit = sats;
  amount = done (pos 1);
  status = text "paid";
}

nodeless_callback-NodelessEnds_example :
    NodelessEnds
      (processors (text "nodeless"))
      (123 ∷ [])
      (some (text "0102"))
      nodeless_body
      payments_state
      (nodeless_callback
        (processors (text "nodeless"))
        (123 ∷ [])
        (some (text "0102"))
        nodeless_body
        payments_state)
nodeless_callback-NodelessEnds_example =
    nodeless_callback-NodelessEnds (processors (text "nodeless")) (123 ∷ []) (some (text "0102"))
      nodeless_body payments_state

abbrev open_node_body : OpenNodeBody
open_node_body = record {
  id = text "i";
  order_id = text "b1b1";
  amount = none;
  price = done (pos 1);
  status = text "paid";
}

abbrev paid_invoice : SentInvoice
paid_invoice = record {
  id = text "i";
  pubkey = text "b1b1";
  amount_requested = pos 1;
  unit = sats;
  status = known completed;
  confirmed_at = some 5000;
}

paid_is_read : from_open_node_invoice 5000 open_node_body ≡ done paid_invoice
unfolding from_open_node_invoice open_node_status includes ◌===◌
paid_is_read = refl

status_is_written :
    (write_status (processors (text "opennode")) (text "i") (known completed) payments_state).0
    ≡ done (some (record invoice { status = completed; confirmed_at = none }))
unfolding write_status update_invoice_status on_db
status_is_written = refl

open_node_callback-Throws_example :
    Throws
      (processors (text "opennode"))
      (write_status (processors (text "opennode")) (text "i") (known completed) payments_state).1.db
      (open_node_callback (processors (text "opennode")) open_node_body payments_state)
open_node_callback-Throws_example =
    open_node_callback-Throws (processors (text "opennode")) open_node_body paid_invoice
      (record invoice { status = completed; confirmed_at = none }) payments_state paid_is_read
      status_is_written refl refl
