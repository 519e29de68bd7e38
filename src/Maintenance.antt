-- ===== src/Maintenance.antt =====
-- `onSchedule` of src/app/maintenance-worker.ts. Delays are left out, and of the two methods that
-- `Promise.all` starts the first runs to its end before the second.
pub mod Rounds
pub mod Schedule
use nostream.Prelude.{
  ℕ, Bool, true, false, not, ◌&&◌, Option, none, some, List, [], ◌∷◌, if◌then◌else◌, is_some,
  get_or_default,
}
use nostream.Prelude.Text.{Text}
use nostream.Action.{Action, Outcome, done, failed, pure, catch, ◌>>=◌, ◌>>◌}
use nostream.EventHandler.Admission.{payments_enabled}
use nostream.Payments.{
  Invoice, InvoiceStatus, pending, completed, expired, PaymentsContext, PaymentsState,
  confirm_invoice, is_same_status,
}
use nostream.Payments.Service.{
  PartialInvoice, ServiceContext, on_db, answered, update_invoice_status,
  send_invoice_update_notification,
}

-- `updatedInvoice.confirmedAt`, as a test
abbrev pub is_confirmed : Option (Option ℕ) → Bool
is_confirmed none = false
is_confirmed (some date) = is_some date

unfoldable pub is_settled : Invoice → PartialInvoice → InvoiceStatus → Bool
is_settled invoice updated status =
    not (is_same_status invoice.status status)
    && (is_same_status status completed && is_confirmed updated.confirmed_at)

-- `mergeDeepLeft(updatedInvoice)` and then `mergeDeepLeft({ amountPaid: invoice.amountRequested })`
unfoldable pub merge_invoice : PartialInvoice → Invoice → Invoice
merge_invoice updated invoice = record invoice {
  id = get_or_default invoice.id updated.id;
  pubkey = get_or_default invoice.pubkey updated.pubkey;
  bolt11 = get_or_default invoice.bolt11 updated.bolt11;
  unit = get_or_default invoice.unit updated.unit;
  status = get_or_default invoice.status updated.status;
  confirmed_at = get_or_default invoice.confirmed_at updated.confirmed_at;
  amount_paid = some invoice.amount_requested;
}

-- What `Promise.all` gives of two methods without a value.
abbrev pub both_done : Outcome (Unit {0}) → Outcome (Unit {0}) → Outcome (Unit {0})
both_done (failed t) o = failed t
both_done (done _) o = o

module _ {D : Type 0} (context : ServiceContext D) where
  unfoldable pub confirm_and_notify : Invoice → Action (PaymentsState D) (Unit {0})
  confirm_and_notify invoice w =
      let one = confirm_invoice context.payments invoice w in
      let two = send_invoice_update_notification context invoice one.1 in
      (both_done one.0 two.0, two.1)

  unfoldable pub settle :
      Invoice → PartialInvoice → InvoiceStatus → Action (PaymentsState D) (Unit {0})
  settle invoice updated status =
      if is_settled invoice updated status
      then confirm_and_notify (merge_invoice updated invoice)
      else pure tt

  unfoldable pub update_known :
      Invoice
      → PartialInvoice
      → Option Text
      → Option InvoiceStatus
      → Action (PaymentsState D) (Unit {0})
  update_known invoice updated (some id) (some status) = do
    stored ← update_invoice_status context id status
    settle invoice updated status
  update_known invoice updated id status = pure tt

  unfoldable pub update_pending : Invoice → Action (PaymentsState D) (Unit {0})
  update_pending invoice = do
    updated ← answered context (context.processor_get_invoice invoice)
    update_known invoice updated updated.id updated.status

  -- One round of the loop; what it throws is logged.
  unfoldable pub process_invoice : Invoice → Action (PaymentsState D) (Unit {0})
  process_invoice invoice = catch (update_pending invoice) (λ t. pure tt)

  unfoldable pub process_invoices : List Invoice → Action (PaymentsState D) (Unit {0})
  process_invoices [] w = pure tt w
  process_invoices (invoice ∷ invoices) w =
      (do process_invoice invoice; process_invoices invoices) w

  unfoldable pub process_pending : Action (PaymentsState D) (Unit {0})
  process_pending w =
      (do invoices ← (λ w. (context.find_pending_invoices 0 10 w.db, w)); process_invoices invoices)
        w

  unfoldable pub on_schedule : Action (PaymentsState D) (Unit {0})
  on_schedule =
      if payments_enabled context.payments.settings.payments then process_pending else pure tt
