-- ===== src/Maintenance/Rounds.antt =====
-- What a round of the loop of `onSchedule` in src/app/maintenance-worker.ts does with one pending
-- invoice.
use nostream.Prelude.{
  ℕ, ◌≡◌, ◌≢◌, refl, ◌⊎◌, inl, inr, true, Option, none, some, arith, Bool-cases, get_or_default,
}
use nostream.Prelude.Int.{ℤ}
use nostream.Prelude.Text.{Text}
use nostream.Action.{Outcome, done, failed, Thrown}
use nostream.Strategies.Effects.{Outcome-cases}
use nostream.Payments.{
  is_same_status, Invoice, InvoiceStatus, pending, completed, expired, PaymentsState,
  confirm_invoice,
}
use nostream.Payments.Atomic.{Confirmation, confirm_invoice-Confirmation}
use nostream.Payments.Service.{PartialInvoice, ServiceContext, on_db, update_invoice_status}
use nostream.Maintenance.{
  is_confirmed, is_settled, merge_invoice, confirm_and_notify, settle, update_known, update_pending,
  process_invoice,
}
use nostream.Payments.Service.Notified.{Notified, caught, send_invoice_update_notification-Notified}

is_same_status_sound : (s t : InvoiceStatus) → is_same_status s t ≡ true → s ≡ t
is_same_status_sound pending pending h = refl
is_same_status_sound completed completed h = refl
is_same_status_sound expired expired h = refl
is_same_status_sound _ _ h = cc

is_same_status_refl : (s : InvoiceStatus) → is_same_status s s ≡ true
is_same_status_refl pending = refl
is_same_status_refl completed = refl
is_same_status_refl expired = refl

is_confirmed_lem :
    (o : Option (Option ℕ)) → is_confirmed o ≡ true → (date : ℕ) × (o ≡ some (some date))
is_confirmed_lem none h = cc
is_confirmed_lem (some none) h = cc
is_confirmed_lem (some (some date)) h = (date, refl)

is_settled_lem :
    (invoice : Invoice) (updated : PartialInvoice) (status : InvoiceStatus)
    → is_settled invoice updated status ≡ true
    → (status ≡ completed)
      × (invoice.status ≢ completed)
      × ((date : ℕ) × (updated.confirmed_at ≡ some (some date)))
unfolding is_settled
is_settled_lem invoice updated status h =
    let now = is_same_status_sound status completed (ground arith) in
    (
      now,
      λ e. absurd (ground (arith, is_same_status_refl completed, now, e)),
      is_confirmed_lem updated.confirmed_at (ground arith),
    )

-- The pending invoice, completed as the processor's answer says, and paid in the amount that was
-- requested.
abbrev pub completed_invoice : PartialInvoice → Invoice → Text → ℕ → Invoice
completed_invoice updated invoice id date = record {
  id = id;
  pubkey = get_or_default invoice.pubkey updated.pubkey;
  bolt11 = get_or_default invoice.bolt11 updated.bolt11;
  amount_requested = invoice.amount_requested;
  amount_paid = some invoice.amount_requested;
  unit = get_or_default invoice.unit updated.unit;
  status = completed;
  description = invoice.description;
  confirmed_at = some date;
  expires_at = invoice.expires_at;
  updated_at = invoice.updated_at;
  created_at = invoice.created_at;
  verify_url = invoice.verify_url;
}

merge_invoice_lem :
    (updated : PartialInvoice) (invoice : Invoice) (id : Text) (status : InvoiceStatus) (date : ℕ)
    → updated.id ≡ some id
    → updated.status ≡ some status
    → status ≡ completed
    → updated.confirmed_at ≡ some (some date)
    → merge_invoice updated invoice ≡ completed_invoice updated invoice id date
unfolding merge_invoice
merge_invoice_lem updated invoice id status date e f now dated = rw (e, f, now, dated) refl

module _ {D : Type 0} (context : ServiceContext D) where
  -- The invoice is confirmed, or that throws and the database is as before; either way its payer is
  -- then notified of the amount.
  pub data Settled (invoice : Invoice) (amount : ℤ) (w w' : PaymentsState D) : Type 0 where
    settled :
        (r : Outcome (Unit {0}) × PaymentsState D)
        → Confirmation context.payments invoice w r
        → Notified context invoice amount r.1 w'
        → Settled invoice amount w w'

  confirm_and_notify-Settled :
      (invoice : Invoice) (amount : ℤ) (w : PaymentsState D)
      → invoice.amount_paid ≡ some amount
      → Settled invoice amount w (confirm_and_notify context invoice w).1
  unfolding confirm_and_notify
  confirm_and_notify-Settled invoice amount w paid =
      settled (confirm_invoice context.payments invoice w)
        (confirm_invoice-Confirmation context.payments invoice w)
        (send_invoice_update_notification-Notified context invoice amount
          (confirm_invoice context.payments invoice w).1 paid).1

  -- What a round does with one pending invoice.
  pub data Processed (invoice : Invoice) (w w' : PaymentsState D) : Type 0 where
    unanswered :
        (t : Thrown)
        → context.processor_get_invoice invoice ≡ failed t
        → w' ≡ w
        → Processed invoice w w'
    -- the answer lacks the id or the status
    lacking :
        (updated : PartialInvoice)
        → context.processor_get_invoice invoice ≡ done updated
        → (updated.id ≡ none) ⊎ (updated.status ≡ none)
        → w' ≡ w
        → Processed invoice w w'
    -- the status is written, or that throws, and no more
    status_written :
        (updated : PartialInvoice) (id : Text) (status : InvoiceStatus)
        → context.processor_get_invoice invoice ≡ done updated
        → updated.id ≡ some id
        → updated.status ≡ some status
        → w' ≡ record w { db = (context.update_status id status w.db).1 }
        → Processed invoice w w'
    -- the status is written and the invoice settled
    paid :
        (updated : PartialInvoice) (id : Text) (status : InvoiceStatus) (date : ℕ)
        (stored : Option Invoice)
        → context.processor_get_invoice invoice ≡ done updated
        → updated.id ≡ some id
        → updated.status ≡ some status
        → status ≡ completed
        → updated.confirmed_at ≡ some (some date)
        → invoice.status ≢ completed
        → (context.update_status id status w.db).0 ≡ done stored
        → Settled
            (completed_invoice updated invoice id date)
            invoice.amount_requested
            (record w { db = (context.update_status id status w.db).1 })
            w'
        → Processed invoice w w'

  update_known-Processed :
      (invoice : Invoice) (updated : PartialInvoice) (o : Option Text) (p : Option InvoiceStatus)
      (w : PaymentsState D)
      → context.processor_get_invoice invoice ≡ done updated
      → updated.id ≡ o
      → updated.status ≡ p
      → Processed invoice w (update_known context invoice updated o p w).1
  unfolding update_known update_invoice_status on_db settle
  update_known-Processed invoice updated none p w g e f = lacking updated g (inl e) refl
  update_known-Processed invoice updated (some id) none w g e f = lacking updated g (inr f) refl
  update_known-Processed invoice updated (some id) (some status) w g e f =
      elim (Outcome-cases (context.update_status id status w.db).0) [
        | inr (t, h) ↦ rw h (status_written updated id status g e f refl)
        | inl (stored, h) ↦ elim (Bool-cases (is_settled invoice updated status)) [
          | inr unsettled ↦ rw (h, unsettled) (status_written updated id status g e f refl)
          | inl is_paid ↦
              let (now, before, (date, dated)) = is_settled_lem invoice updated status is_paid in
              rw (h, is_paid)
                (paid updated id status date stored g e f now dated before h (
                  rw (merge_invoice_lem updated invoice id status date e f now dated) (
                    confirm_and_notify-Settled (completed_invoice updated invoice id date)
                      invoice.amount_requested
                      (record w { db = (context.update_status id status w.db).1 }) refl)))
        ]
      ]

  pub process_invoice-Processed :
      (invoice : Invoice) (w : PaymentsState D)
      → ((process_invoice context invoice w).0 ≡ done tt)
        × Processed invoice w (process_invoice context invoice w).1
  unfolding process_invoice update_pending
  process_invoice-Processed invoice w =
      let updating = update_pending context invoice in
      rw (caught updating w) (
        refl,
        elim (Outcome-cases (context.processor_get_invoice invoice)) [
          | inr (t, h) ↦ rw h (unanswered t h refl)
          | inl (updated, h) ↦
              rw h (update_known-Processed invoice updated updated.id updated.status w h refl refl)
        ],
      )
