-- ===== src/Controllers/Unconfirmed.antt =====
-- Invoices that the callbacks of src/controllers/callbacks give to `confirmInvoice` without a date.
use nostream.Prelude.{◌≡◌, refl, ap, false, not, ◌&&◌, none, some, arith, is_some}
use nostream.Action.{Outcome, done, failed, Thrown}
use nostream.Payments.{is_same_status, Invoice, completed, PaymentsState}
use nostream.Payments.Atomic.{unchanged, confirmed, confirm_invoice-Confirmation}
use nostream.Controllers.{HttpResponse}
use nostream.Controllers.Lnbits.{is_unpaid, ok_answer}
use nostream.Controllers.Bodies.{SentInvoice, OpenNodeBody, from_open_node_invoice}
use nostream.Controllers.Processors.{
  ProcessorContext, open_node_confirmation, write_status, confirm_and_answer, on_updated,
  take_invoice, open_node_callback,
}

module _ {D : Type 0} (context : ProcessorContext D) where
  -- The action throws, and has written the database `db`.
  abbrev pub Throws : D → Outcome HttpResponse × PaymentsState D → Type 0
  Throws db r = ((t : Thrown) × (r.0 ≡ failed t)) × (r.1.db ≡ db)

  confirm_and_answer-Throws :
      (invoice notified : Invoice) (response : HttpResponse) (v : PaymentsState D)
      → invoice.confirmed_at ≡ none
      → Throws v.db (confirm_and_answer context invoice notified response v)
  unfolding confirm_and_answer
  confirm_and_answer-Throws invoice notified response v undated =
      elim (confirm_invoice-Confirmation context.service.payments invoice v) [
        | unchanged t f same ↦ ((t, rw f refl), rw f same)
        | confirmed _ _ _ _ _ dated _ _ _ ↦ absurd (ground (arith, undated, dated))
      ]

  take_invoice-Throws :
      (confirmation : SentInvoice → Invoice → Invoice) (response : HttpResponse)
      (sent : Outcome SentInvoice) (invoice : SentInvoice) (updated : Invoice) (w : PaymentsState D)
      → sent ≡ done invoice
      → (write_status context invoice.id invoice.status w).0 ≡ done (some updated)
      → updated.status ≡ completed
      → (confirmation invoice updated).confirmed_at ≡ none
      → Throws
          (write_status context invoice.id invoice.status w).1.db
          (take_invoice context confirmation response sent w)
  unfolding take_invoice on_updated is_unpaid
  take_invoice-Throws confirmation response sent invoice updated w s u c undated =
      let v = (write_status context invoice.id invoice.status w).1 in
      let paid : is_unpaid updated ≡ false =
        ap (λ s. not (is_same_status s completed) && not (is_some updated.confirmed_at)) c in
      rw (s, u, paid)
        (confirm_and_answer-Throws (confirmation invoice updated)
          (record updated { amount_paid = some invoice.amount_requested }) response v undated)

  -- A callback of OpenNode for an invoice that is completed and that has no date of confirmation in
  -- the database throws, and writes nothing but the status.
  pub open_node_callback-Throws :
      (body : OpenNodeBody) (invoice : SentInvoice) (updated : Invoice) (w : PaymentsState D)
      → from_open_node_invoice context.service.payments.now body ≡ done invoice
      → (write_status context invoice.id invoice.status w).0 ≡ done (some updated)
      → updated.status ≡ completed
      → updated.confirmed_at ≡ none
      → Throws
          (write_status context invoice.id invoice.status w).1.db
          (open_node_callback context body w)
  unfolding open_node_callback open_node_confirmation
  open_node_callback-Throws body invoice updated w s u c undated =
      take_invoice-Throws open_node_confirmation ok_answer
        (from_open_node_invoice context.service.payments.now body) invoice updated w s u c undated
