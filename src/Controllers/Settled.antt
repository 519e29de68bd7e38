-- ===== src/Controllers/Settled.antt =====
-- The step that zebedee-callback-controller.ts and nodeless-callback-controller.ts in
-- src/controllers/callbacks share: the status that was sent is written, and the invoice settled.
use mathlib.Core.Path.{subst}
use nostream.Prelude.{
  ◌≡◌, ◌≢◌, refl, inl, inr, true, false, Option, none, some, arith, Bool-cases, Option-cases,
}
use nostream.Prelude.Int.{ℤ}
use nostream.Prelude.Text.{Text, ===_iff}
use nostream.Action.{Thrown, Outcome, done, failed}
use nostream.Strategies.Effects.{Outcome-cases}
use nostream.Payments.{completed, Invoice, PaymentsState, confirm_invoice}
use nostream.Payments.Atomic.{Confirmation, unchanged, confirmed, confirm_invoice-Confirmation}
use nostream.Payments.Service.Notified.{Notified, send_invoice_update_notification-Notified}
use nostream.Controllers.{HttpResponse}
use nostream.Controllers.Lnbits.{is_unpaid}
use nostream.Controllers.Signed.{HasProcessor}
use nostream.Controllers.Status.{StatusWritten, write_status-StatusWritten, write_status-db}
use nostream.Controllers.Acknowledged.{is_unpaid_lem, is_acknowledged}
use nostream.Controllers.Bodies.{SentStatus, SentInvoice, with_amount}
use nostream.Controllers.Processors.{
  ProcessorContext, write_status, confirm_and_answer, on_updated, take_invoice, is_processor,
}

pub with_amount_lem :
    (o : Outcome ℤ) (make : ℤ → SentInvoice) (invoice : SentInvoice)
    → with_amount o make ≡ done invoice
    → (amount : ℤ) × (o ≡ done amount) × (invoice ≡ make amount)
with_amount_lem (failed t) make invoice h = absurd (ground arith)
with_amount_lem (done amount) make invoice h = (amount, refl, ground arith)

pub unread_lem :
    (o : Outcome ℤ) (make : ℤ → SentInvoice) (t : Thrown) (amount : ℤ)
    → with_amount o make ≡ failed t
    → ¬ (o ≡ done amount)
unread_lem (failed t) make u amount h e = absurd (ground arith)
unread_lem (done n) make u amount h e = absurd (ground arith)

module _ {D : Type 0} (context : ProcessorContext D) where
  -- Why the invoice that writing its status gives, with the database after it, is not settled: there is
  -- none, it is neither completed nor dated, or its confirmation throws.
  pub data Unsettled (confirmation : Invoice → Invoice) (w : PaymentsState D)
      (o : Outcome (Option Invoice)) (db : D) : Type 0 where
    no_invoice : ((updated : Invoice) → ¬ (o ≡ done (some updated))) → Unsettled confirmation w o db
    not_paid :
        (updated : Invoice)
        → o ≡ done (some updated)
        → updated.status ≢ completed
        → updated.confirmed_at ≡ none
        → Unsettled confirmation w o db
    not_confirmed :
        (updated : Invoice) (t : Thrown)
        → o ≡ done (some updated)
        → (confirm_invoice context.service.payments (confirmation updated) (record w { db = db })).0
          ≡ failed t
        → Unsettled confirmation w o db

  -- Only the status is written, or the invoice that this gives is confirmed, as `confirmation` makes
  -- it, and its payer notified of the amount.
  pub data Taken (id : Text) (status : SentStatus) (amount : ℤ) (confirmation : Invoice → Invoice)
      (response : HttpResponse) (w : PaymentsState D) (r : Outcome HttpResponse × PaymentsState D)
      : Type 0 where
    written :
        (o : Outcome (Option Invoice)) (db : D)
        → StatusWritten context id status w o db
        → Unsettled confirmation w o db
        → r.1.db ≡ db
        → is_acknowledged r.0 ≡ false
        → Taken id status amount confirmation response w r
    settled :
        (updated : Invoice) (db : D) (c : Outcome (Unit {0}) × PaymentsState D)
        → StatusWritten context id status w (done (some updated)) db
        → Confirmation context.service.payments (confirmation updated) (record w { db = db }) c
        → c.0 ≡ done tt
        → Notified context.service (record updated { amount_paid = some amount }) amount c.1 r.1
        → r.0 ≡ done response
        → Taken id status amount confirmation response w r

  confirm_and_answer-Taken :
      (confirmation : SentInvoice → Invoice → Invoice) (response : HttpResponse)
      (invoice : SentInvoice) (updated : Invoice) (w : PaymentsState D)
      → (write_status context invoice.id invoice.status w).0 ≡ done (some updated)
      → Taken invoice.id invoice.status invoice.amount_requested (confirmation invoice) response w (
          confirm_and_answer context
            (confirmation invoice updated)
            (record updated { amount_paid = some invoice.amount_requested })
            response
            (write_status context invoice.id invoice.status w).1)
  unfolding confirm_and_answer
  confirm_and_answer-Taken confirmation response invoice updated w u =
      let v = (write_status context invoice.id invoice.status w).1 in
      let payments = context.service.payments in
      let c = confirm_invoice payments (confirmation invoice updated) v in
      let whole = confirm_invoice-Confirmation payments (confirmation invoice updated) v in
      let status = write_status-StatusWritten context invoice.id invoice.status w in
      elim (confirm_invoice-Confirmation payments (confirmation invoice updated) v) [
        | unchanged t f same ↦
            let thrown =
              subst (λ v. (confirm_invoice payments (confirmation invoice updated) v).0 ≡ failed t)
                (write_status-db context invoice.id invoice.status w) f in
            rw f (
              written (write_status context invoice.id invoice.status w).0 v.db status
                (not_confirmed updated t u thrown) same refl)
        | confirmed _ _ _ _ _ _ _ f _ ↦
            let (sent, told) =
              send_invoice_update_notification-Notified context.service
                (record updated { amount_paid = some invoice.amount_requested })
                invoice.amount_requested c.1 refl in
            settled updated v.db c
              (subst (λ o. StatusWritten context invoice.id invoice.status w o v.db) u status)
              (subst (λ v. Confirmation payments (confirmation invoice updated) v c)
                (write_status-db context invoice.id invoice.status w) whole)
              f (rw (f, sent) told) (rw (f, sent) refl)
      ]

  pub take_invoice-Taken :
      (confirmation : SentInvoice → Invoice → Invoice) (response : HttpResponse)
      (invoice : SentInvoice) (w : PaymentsState D)
      → Taken invoice.id invoice.status invoice.amount_requested
          (confirmation invoice)
          response
          w
          (take_invoice context confirmation response (done invoice) w)
  unfolding take_invoice on_updated
  take_invoice-Taken confirmation response invoice w =
      let o = (write_status context invoice.id invoice.status w).0 in
      let db = (write_status context invoice.id invoice.status w).1.db in
      let status = write_status-StatusWritten context invoice.id invoice.status w in
      elim (Outcome-cases (write_status context invoice.id invoice.status w).0) [
        | inr (t, h) ↦
            rw h (written o db status (no_invoice (λ u e. absurd (ground (arith, h, e)))) refl refl)
        | inl (none, h) ↦
            rw h (written o db status (no_invoice (λ u e. absurd (ground (arith, h, e)))) refl refl)
        | inl (some updated, h) ↦ elim (Bool-cases (is_unpaid updated)) [
          | inl y ↦
              let (open_status, undated) = is_unpaid_lem updated y in
              rw (h, y) (written o db status (not_paid updated h open_status undated) refl refl)
          | inr n ↦ rw (h, n) (confirm_and_answer-Taken confirmation response invoice updated w h)
        ]
      ]

  pub is_processor_lem :
      (name : Text)
      → is_processor context name ≡ true
      → HasProcessor context.service.payments.settings name
  is_processor_lem name h = elim (Option-cases context.service.payments.settings.payments) [
    | inl n ↦ absurd (ground (arith, rw n at h))
    | inr (p, e) ↦ (p, e, (===_iff p.processor name).0 (rw e at h))
  ]

  pub is_processor_complete :
      (name : Text)
      → HasProcessor context.service.payments.settings name
      → is_processor context name ≡ true
  is_processor_complete name (p, e, n) = rw e ((===_iff p.processor name).1 n)
