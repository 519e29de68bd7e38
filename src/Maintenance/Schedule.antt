-- ===== src/Maintenance/Schedule.antt =====
-- What `onSchedule` of src/app/maintenance-worker.ts does with the pending invoices.
use nostream.Prelude.{◌≡◌, false, List, [], ◌∷◌}
use nostream.Action.{Outcome, done, failed, Thrown}
use nostream.EventHandler.Admission.{payments_enabled}
use nostream.Payments.{Invoice, PaymentsState}
use nostream.Payments.Service.{ServiceContext}
use nostream.Maintenance.Rounds.{Processed}

module _ {D : Type 0} (context : ServiceContext D) where
  -- One invoice after the other, in their order.
  pub data AllProcessed : List Invoice → PaymentsState D → PaymentsState D → Type 0 where
    none_left : {w w' : PaymentsState D} → w' ≡ w → AllProcessed [] w w'
    then_rest :
        {invoice : Invoice} {invoices : List Invoice} {w middle w' : PaymentsState D}
        → Processed context invoice w middle
        → AllProcessed invoices middle w'
        → AllProcessed (invoice ∷ invoices) w w'

  pub data Scheduled (w : PaymentsState D) (r : Outcome (Unit {0}) × PaymentsState D) : Type 0 where
    disabled :
        payments_enabled context.payments.settings.payments ≡ false
        → r ≡ (done tt, w)
        → Scheduled w r
    unreadable :
        (t : Thrown)
        → context.find_pending_invoices 0 10 w.db ≡ failed t
        → r ≡ (failed t, w)
        → Scheduled w r
    scheduled :
        (invoices : List Invoice)
        → context.find_pending_invoices 0 10 w.db ≡ done invoices
        → r.0 ≡ done tt
        → AllProcessed invoices w r.1
        → Scheduled w r
