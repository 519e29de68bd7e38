-- ===== src/Controllers/Acknowledged.antt =====
-- How a request to src/controllers/callbacks/lnbits-callback-controller.ts may end, and why.
use nostream.Prelude.{
  ◌≡◌, ◌≢◌, ◌⊎◌, Option-cases, refl, ap, inl, inr, Bool, true, false, none, some, ◌==◌, arith,
  length,
}
use nostream.Prelude.Text.{Text, text}
use nostream.Action.{Outcome, done, failed, Thrown}
use nostream.Payments.{
  is_same_status, Invoice, InvoiceStatus, pending, completed, expired, PaymentsState,
  confirm_invoice,
}
use nostream.Payments.Atomic.{Confirmation}
use nostream.Payments.Service.Notified.{Notified}
use nostream.Controllers.{HttpResponse, get_remote_address}
use nostream.Controllers.Lnbits.{LnbitsRequest, LnbitsContext, ok_answer, is_unpaid, is_validated}
use nostream.Controllers.Signed.{HasProcessor, IsSigned}

pub completed_lem : (s : InvoiceStatus) → is_same_status s completed ≡ false → ¬ (s ≡ completed)
completed_lem s h e =
    let same = ap (λ s. is_same_status s completed) e in absurd (ground (arith, same))

pub is_unpaid_lem :
    (invoice : Invoice)
    → is_unpaid invoice ≡ true
    → (invoice.status ≢ completed) × (invoice.confirmed_at ≡ none)
unfolding is_unpaid
is_unpaid_lem invoice h = (
  completed_lem invoice.status (ground arith),
  elim (Option-cases invoice.confirmed_at) [
    | inl n ↦ n
    | inr (date, e) ↦ absurd (ground (arith, rw e at h))
  ],
)

pub same_completed : (s : InvoiceStatus) → is_same_status s completed ≡ true → s ≡ completed
same_completed completed h = refl
same_completed pending h = cc
same_completed expired h = cc

-- The answer is a text with the status 200.
abbrev pub is_acknowledged : Outcome HttpResponse → Bool
is_acknowledged (failed t) = false
is_acknowledged (done r) = elim r.content_type [ none ↦ false | some _ ↦ r.status == 200 ]

module _ {D : Type 0} (context : LnbitsContext D) where
  pub record Authentic (r : LnbitsRequest) : Type 0 where
    pub address : Text
    pub is_address : get_remote_address r.request context.service.payments.settings ≡ done address
    pub hmac : Text
    pub processor : HasProcessor context.service.payments.settings (text "lnbits")
    pub is_given : r.hmac ≡ some hmac
    pub is_signed : IsSigned context hmac

  -- The request names an invoice that is stored.
  pub record Known (r : LnbitsRequest) (w : PaymentsState D) (invoice stored : Invoice)
      : Type 0 where
    pub authentic : Authentic r
    pub hash : Text
    pub is_named : r.payment_hash ≡ some hash
    pub is_long : length hash ≡ 64
    pub is_fetched : context.get_invoice hash ≡ done invoice
    pub is_stored : context.find_by_id hash w.db ≡ done (some stored)

  -- The payments processor's status of the invoice has been written.
  abbrev pub status_written : Invoice → PaymentsState D → PaymentsState D
  status_written invoice w = record w {
    db = (context.service.update_status invoice.id invoice.status w.db).1;
  }

  -- The processor's invoice, as paid in the amount that was requested.
  abbrev pub paid_in_full : Invoice → Invoice
  paid_in_full invoice = record {
    id = invoice.id;
    pubkey = invoice.pubkey;
    bolt11 = invoice.bolt11;
    amount_requested = invoice.amount_requested;
    amount_paid = some invoice.amount_requested;
    unit = invoice.unit;
    status = invoice.status;
    description = invoice.description;
    confirmed_at = invoice.confirmed_at;
    expires_at = invoice.expires_at;
    updated_at = invoice.updated_at;
    created_at = invoice.created_at;
    verify_url = invoice.verify_url;
  }

  -- The confirmation, once the status has been written.
  abbrev pub confirming : Invoice → PaymentsState D → Outcome (Unit {0}) × PaymentsState D
  confirming invoice w =
      confirm_invoice context.service.payments (paid_in_full invoice) (status_written invoice w)

  -- Why the known invoice is not confirmed: writing its status throws, the processor has it neither as
  -- completed nor dated, it was stored as completed before, or the confirmation throws.
  pub data Unconfirmed (invoice stored : Invoice) (w : PaymentsState D) : Type 0 where
    not_written :
        (t : Thrown)
        → (context.service.update_status invoice.id invoice.status w.db).0 ≡ failed t
        → Unconfirmed invoice stored w
    not_paid :
        invoice.status ≢ completed → invoice.confirmed_at ≡ none → Unconfirmed invoice stored w
    settled_before : stored.status ≡ completed → Unconfirmed invoice stored w
    not_confirmed :
        (t : Thrown) → (confirming invoice w).0 ≡ failed t → Unconfirmed invoice stored w

  pub data CallbackEnds (r : LnbitsRequest) (w : PaymentsState D)
      (o : Outcome HttpResponse × PaymentsState D) : Type 0 where
    untouched :
        (is_validated context r.hmac ≢ done true)
          ⊎ ((invoice stored : Invoice) → ¬ Known r w invoice stored)
        → is_acknowledged o.0 ≡ false
        → o.1.db ≡ w.db
        → CallbackEnds r w o
    updated :
        (invoice stored : Invoice)
        → Known r w invoice stored
        → Unconfirmed invoice stored w
        → is_acknowledged o.0 ≡ false
        → o.1.db ≡ (status_written invoice w).db
        → CallbackEnds r w o
    settled :
        (invoice stored : Invoice)
        → Known r w invoice stored
        → ¬ (stored.status ≡ completed)
        → o.0 ≡ done ok_answer
        → (confirming invoice w).0 ≡ done tt
        → Confirmation context.service.payments
            (paid_in_full invoice)
            (status_written invoice w)
            (confirming invoice w)
        → Notified context.service
            (paid_in_full invoice)
            invoice.amount_requested
            (confirming invoice w).1
            o.1
        → CallbackEnds r w o
