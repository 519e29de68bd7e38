-- ===== src/Payments/Service.antt =====
-- `createInvoice`, `updateInvoice` and `sendInvoiceUpdateNotification` of
-- src/services/payments-service.ts.
pub mod Creation
pub mod Notified
use nostream.Prelude.{
  ℕ, ◌+◌, ◌-◌, ◌/◌, Bool, true, false, Option, none, some, List, [], ◌∷◌, ◌++◌, ◌==◌, if◌then◌else◌,
}
use nostream.Prelude.Int.{ℤ, pos, negsuc}
use nostream.Prelude.Text.{Text, text}
use nostream.Prelude.Decimal.{decimal}
use nostream.Action.{Action, Outcome, done, failed, error, pure, throw, catch, ◌>>=◌, ◌>>◌}
use nostream.Event.{Event, expiration_tag}
use nostream.Payments.{
  Invoice, InvoiceUnit, msats, sats, btc, InvoiceStatus, PaymentsContext, PaymentsState,
  begin_transaction, in_transaction, commit_transaction, rollback_transaction,
}

-- `CreateInvoiceResponse`: what the payments processor answers to a request.
pub record InvoiceResponse : Type 0 where
  pub id : Text
  pub bolt11 : Text
  pub amount_requested : ℤ
  pub description : Text
  pub unit : InvoiceUnit
  pub status : InvoiceStatus
  pub expires_at : Option ℕ
  pub created_at : ℕ
  pub verify_url : Option Text

-- The fields of `Partial<Invoice>` that are read: one that is not there is `none`, and
-- `confirmed_at` may also be there as null.
pub record PartialInvoice : Type 0 where
  pub id : Option Text
  pub pubkey : Option Text
  pub bolt11 : Option Text
  pub unit : Option InvoiceUnit
  pub status : Option InvoiceStatus
  pub confirmed_at : Option (Option ℕ)

-- What else the service is given: the payments processor, the repositories outside and within a
-- transaction, and how an event is identified, signed and sent to the primary process.
pub record ServiceContext (D : Type 0) : Type 0 where
  pub payments : PaymentsContext D
  pub relay_pubkey : Text
  pub processor_create_invoice : ℤ → Text → Text → Outcome InvoiceResponse
  pub processor_get_invoice : Invoice → Outcome PartialInvoice
  pub upsert_user : Text → D → Outcome ℕ × D
  pub upsert_invoice : Invoice → D → Outcome ℕ × D
  pub update_status : Text → InvoiceStatus → D → Outcome (Option Invoice) × D
  pub find_pending_invoices : ℕ → ℕ → D → Outcome (List Invoice)
  pub create_event : Event → D → Outcome ℕ × D
  pub identify : Event → Outcome Event
  pub sign : Event → Outcome Event
  pub send : Event → Outcome (Unit {0})
  -- `new Date(now.getFullYear(), now.getMonth() + 1, now.getDate())`
  pub month_later : ℕ → ℕ

-- The invoice that `createInvoice` stores; its dates are the service's.
unfoldable pub stored_invoice : Text → ℕ → InvoiceResponse → Invoice
stored_invoice pubkey now response = record {
  id = response.id;
  pubkey = pubkey;
  bolt11 = response.bolt11;
  amount_requested = response.amount_requested;
  amount_paid = none;
  unit = response.unit;
  status = response.status;
  description = response.description;
  confirmed_at = none;
  expires_at = response.expires_at;
  updated_at = now;
  created_at = now;
  verify_url = response.verify_url;
}

-- The invoice that `createInvoice` returns.
unfoldable pub returned_invoice : Text → Text → ℕ → InvoiceResponse → Invoice
unfolding stored_invoice
returned_invoice pubkey description now response = record (stored_invoice pubkey now response) {
  description = description;
  created_at = response.created_at;
}

-- `a / 1000n`, which rounds towards 0.
unfoldable pub thousandth : ℤ → ℤ
thousandth (pos n) = pos (n / 1000)
thousandth (negsuc n) = let k = (n + 1) / 1000 in if k == 0 then pos 0 else negsuc (k - 1)

abbrev pub integer_text : ℤ → Text
integer_text (pos n) = decimal n
integer_text (negsuc n) = text "-" ++ decimal (n + 1)

-- The amount and the unit that the notification names.
unfoldable pub named_amount : InvoiceUnit → ℤ → ℤ × Text
named_amount msats amount = (thousandth amount, text "sats")
named_amount sats amount = (amount, text "sats")
named_amount btc amount = (amount, text "btc")

abbrev pub invoice_update : ℕ
invoice_update = 402

-- The event before it is identified and signed. `expiration` is in milliseconds, of a whole second.
unfoldable pub notification : Text → ℕ → ℕ → Invoice → ℤ × Text → Event
notification relay_pubkey now expiration invoice (amount, unit) = record {
  id = [];
  pubkey = relay_pubkey;
  created_at = now / 1000;
  kind = invoice_update;
  tags =
      (text "p" ∷ invoice.pubkey ∷ [])
      ∷ (text "bolt11" ∷ invoice.bolt11 ∷ [])
      ∷ (expiration_tag ∷ decimal (expiration / 1000) ∷ [])
      ∷ [];
  sig = [];
  content = text "Invoice paid: " ++ (integer_text amount ++ (text " " ++ unit));
  remote_address = none;
  expiration = some (expiration / 1000);
  deduplication = none;
}

module _ {D : Type 0} (context : ServiceContext D) where
  -- An action of a repository outside a transaction.
  unfoldable pub on_db : {A : Type 0} → Action D A → Action (PaymentsState D) A
  on_db m w = ((m w.db).0, record w { db = (m w.db).1 })

  abbrev pub answered : {A : Type 0} → Outcome A → Action (PaymentsState D) A
  answered o w = (o, w)

  unfoldable pub create_within : Text → ℤ → Text → Action (PaymentsState D) Invoice
  create_within pubkey amount description = do
    begin_transaction context.payments
    users ← in_transaction context.payments (context.upsert_user pubkey)
    response ← answered (context.processor_create_invoice amount description pubkey)
    invoices ←
        in_transaction context.payments
          (context.upsert_invoice (stored_invoice pubkey context.payments.now response))
    commit_transaction context.payments
    pure (returned_invoice pubkey description context.payments.now response)

  unfoldable pub create_invoice : Text → ℤ → Text → Action (PaymentsState D) Invoice
  create_invoice pubkey amount description w =
      catch (create_within pubkey amount description)
        (λ t. rollback_transaction context.payments >> throw t) (record w { trx = none })

  -- `updateInvoiceStatus`, and `updateInvoice`, which does the same and gives nothing.
  unfoldable pub update_invoice_status :
      Text → InvoiceStatus → Action (PaymentsState D) (Option Invoice)
  update_invoice_status id status = on_db (context.update_status id status)

  unfoldable pub update_invoice : Text → InvoiceStatus → Action (PaymentsState D) (Unit {0})
  update_invoice id status = do invoice ← update_invoice_status id status; pure tt

  abbrev announce : Outcome (Unit {0}) → Event → Action (PaymentsState D) (Unit {0})
  announce (failed t) e w = (failed t, w)
  announce (done _) e w = (done tt, record w { announced = w.announced ++ e ∷ [] })

  -- `broadcastEvent`
  unfoldable pub broadcast_event : Event → Action (PaymentsState D) (Unit {0})
  broadcast_event e w = announce (context.send e) e w

  unfoldable pub publish : Event → Action (PaymentsState D) (Unit {0})
  publish unsigned = do
    identified ← answered (context.identify unsigned)
    signed ← answered (context.sign identified)
    count ← on_db (context.create_event signed)
    broadcast_event signed

  unfoldable pub notify_paid : Invoice → Option ℤ → Action (PaymentsState D) (Unit {0})
  notify_paid invoice none = throw (
      error
        (text "Unable to notify user " ++ (invoice.pubkey ++ (text " for invoice " ++ invoice.id))))
  notify_paid invoice (some amount) =
      let now = context.payments.now in
      catch
        (publish (
          notification context.relay_pubkey now (context.month_later now) invoice
            (named_amount invoice.unit amount)))
        (λ t. pure tt)

  unfoldable pub send_invoice_update_notification : Invoice → Action (PaymentsState D) (Unit {0})
  send_invoice_update_notification invoice = notify_paid invoice invoice.amount_paid
