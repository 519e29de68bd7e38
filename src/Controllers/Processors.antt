-- ===== src/Controllers/Processors.antt =====
-- `handleRequest` of zebedee-callback-controller.ts, nodeless-callback-controller.ts and
-- opennode-callback-controller.ts in src/controllers/callbacks.
use nostream.Prelude.{
  ℕ, Bool, true, not, ◌&&◌, ◌||◌, Option, none, some, List, if◌then◌else◌, ltb, length,
}
use nostream.Prelude.Text.{Text, text, includes, is_text}
use nostream.Action.{Action, Outcome, other, pure, throw, ◌>>=◌, ◌>>◌}
use nostream.Bytes.{from_buffer}
use nostream.Settings.{chain}
use nostream.Payments.{Invoice, msats, InvoiceStatus, pending, PaymentsState, confirm_invoice}
use nostream.Payments.Service.{
  ServiceContext, on_db, update_invoice_status, send_invoice_update_notification,
}
use nostream.Controllers.{HttpRequest, HttpResponse, sent, get_remote_address}
use nostream.Controllers.Lnbits.{
  HmacData, string, buffer, is_unpaid, forbidden, empty_answer, ok_answer,
}
use nostream.Controllers.Bodies.{
  SentStatus, known, unknown, absent, SentInvoice, ZebedeeBody, NodelessBody, OpenNodeBody,
  from_zebedee_invoice, from_nodeless_invoice, from_open_node_invoice,
}

-- What else the callbacks are given: what an update without a status does, which writes the date
-- alone, the whitelist of Zebedee, and the secret of Nodeless with the HMAC.
pub record ProcessorContext (D : Type 0) : Type 0 where
  pub service : ServiceContext D
  pub touch : Text → D → Outcome (Option Invoice) × D
  pub zebedee_ip_whitelist : Option (List Text)
  pub hmac_sha256 : HmacData → HmacData → List ℕ
  pub nodeless_webhook_secret : Text

abbrev pub json_answer : HttpResponse
json_answer = record {
  status = 200;
  content_type = some (text "application/json; charset=utf8");
  body = sent (text "{\"status\":\"ok\"}");
}

-- What `confirmInvoice` is given: without a unit it reads the amount as one in millisatoshi.
unfoldable pub zebedee_confirmation : SentInvoice → Invoice → Invoice
zebedee_confirmation invoice updated = record updated {
  id = invoice.id;
  pubkey = invoice.pubkey;
  unit = msats;
  confirmed_at = invoice.confirmed_at;
  amount_paid = some invoice.amount_requested;
}

unfoldable pub open_node_confirmation : SentInvoice → Invoice → Invoice
open_node_confirmation invoice updated = record updated {
  id = invoice.id;
  pubkey = invoice.pubkey;
  unit = msats;
  amount_paid = some updated.amount_requested;
}

-- Without a status there is no date of confirmation, which is asked for first.
abbrev status_of : SentStatus → InvoiceStatus
status_of (known status) = status
status_of _ = pending

unfoldable pub nodeless_confirmation : SentInvoice → Invoice → Invoice
nodeless_confirmation invoice updated = record updated {
  id = invoice.id;
  pubkey = invoice.pubkey;
  unit = invoice.unit;
  status = status_of invoice.status;
  confirmed_at = invoice.confirmed_at;
  amount_paid = some invoice.amount_requested;
}

module _ {D : Type 0} (context : ProcessorContext D) where
  abbrev from : {A : Type 0} → Outcome A → Action (PaymentsState D) A
  from o w = (o, w)

  -- `updateInvoiceStatus`; the column takes no value that is not of the enumeration.
  unfoldable pub write_status : Text → SentStatus → Action (PaymentsState D) (Option Invoice)
  write_status id (known status) = update_invoice_status context.service id status
  write_status id unknown = throw other
  write_status id absent = on_db context.service (context.touch id)

  unfoldable pub confirm_and_answer :
      Invoice → Invoice → HttpResponse → Action (PaymentsState D) HttpResponse
  confirm_and_answer confirmed notified response = do
    confirm_invoice context.service.payments confirmed
    send_invoice_update_notification context.service notified
    pure response

  -- Where no invoice has been updated, reading its status throws.
  unfoldable pub on_updated :
      (SentInvoice → Invoice → Invoice)
      → HttpResponse
      → SentInvoice
      → Option Invoice
      → Action (PaymentsState D) HttpResponse
  on_updated confirmation response invoice none = throw other
  on_updated confirmation response invoice (some updated) =
      if is_unpaid updated
      then pure empty_answer
      else confirm_and_answer (confirmation invoice updated)
          (record updated { amount_paid = some invoice.amount_requested }) response

  unfoldable pub take_invoice :
      (SentInvoice → Invoice → Invoice)
      → HttpResponse
      → Outcome SentInvoice
      → Action (PaymentsState D) HttpResponse
  take_invoice confirmation response invoice = from invoice >>= λ invoice.
      write_status invoice.id invoice.status >>= on_updated confirmation response invoice

  abbrev pub is_processor : Text → Bool
  is_processor name =
      is_text (chain (λ p. some p.processor) context.service.payments.settings.payments) name

  abbrev is_listed : Option (List Text) → Text → Bool
  is_listed none address = true
  is_listed (some list) address = not (ltb 0 (length list)) || includes address list

  abbrev pub zebedee_allows : Text → Bool
  zebedee_allows address =
      is_listed context.zebedee_ip_whitelist address && is_processor (text "zebedee")

  unfoldable pub zebedee_callback :
      HttpRequest → ZebedeeBody → Action (PaymentsState D) HttpResponse
  zebedee_callback request body =
      from (get_remote_address request context.service.payments.settings) >>= λ address.
      if zebedee_allows address
      then take_invoice zebedee_confirmation ok_answer (from_zebedee_invoice body)
      else pure forbidden

  -- `expected`
  unfoldable pub nodeless_signature : List ℕ → Text
  nodeless_signature raw =
      from_buffer (context.hmac_sha256 (string context.nodeless_webhook_secret) (buffer raw))

  -- `raw` is the body as bytes, and `signature` the header "nodeless-signature".
  unfoldable pub nodeless_callback :
      List ℕ → Option Text → NodelessBody → Action (PaymentsState D) HttpResponse
  nodeless_callback raw signature body =
      if not (is_text signature (nodeless_signature raw))
      then pure forbidden
      else if not (is_processor (text "nodeless"))
      then pure forbidden
      else take_invoice nodeless_confirmation json_answer
          (from_nodeless_invoice context.service.payments.now body)

  unfoldable pub open_node_callback : OpenNodeBody → Action (PaymentsState D) HttpResponse
  open_node_callback body =
      take_invoice open_node_confirmation ok_answer
        (from_open_node_invoice context.service.payments.now body)
