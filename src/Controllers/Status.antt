-- ===== src/Controllers/Status.antt =====
-- The statuses that payments processors send to the callbacks of src/controllers/callbacks, and what
-- writing them does.
use nostream.Prelude.{◌≡◌, ◌≢◌, refl, inl, inr, Option, [], ◌∷◌, Any, arith, Bool-cases}
use nostream.Prelude.Text.{Text, text, ◌===◌, ===_iff, includes, includes_iff}
use nostream.Action.{Outcome, failed, other}
use nostream.Payments.{Invoice, InvoiceStatus, pending, completed, expired, PaymentsState}
use nostream.Payments.Service.{on_db, update_invoice_status}
use nostream.Controllers.Bodies.{SentStatus, known, unknown, absent, nodeless_status}
use nostream.Controllers.Processors.{ProcessorContext, write_status}

-- The status that a status of Nodeless stands for.
pub data ReadsAs (s : Text) (status : SentStatus) : Type 0 where
  as_pending :
      Any
        (λ t. t ≡ s)
        (text "new" ∷ text "pending_confirmation" ∷ text "underpaid" ∷ text "in_flight" ∷ [])
      → status ≡ known pending
      → ReadsAs s status
  as_completed :
      Any (λ t. t ≡ s) (text "paid" ∷ text "overpaid" ∷ [])
      → status ≡ known completed
      → ReadsAs s status
  as_expired : s ≡ text "expired" → status ≡ known expired → ReadsAs s status
  as_none :
      ¬ (
        Any
          (λ t. t ≡ s)
          (text "new" ∷ text "pending_confirmation" ∷ text "underpaid" ∷ text "in_flight" ∷ []))
      → ¬ (Any (λ t. t ≡ s) (text "paid" ∷ text "overpaid" ∷ []))
      → s ≢ text "expired"
      → status ≡ absent
      → ReadsAs s status

pub nodeless_status-ReadsAs : (s : Text) → ReadsAs s (nodeless_status s)
unfolding nodeless_status
nodeless_status-ReadsAs s =
    let early =
      text "new" ∷ text "pending_confirmation" ∷ text "underpaid" ∷ text "in_flight" ∷ [] in
    let late = text "paid" ∷ text "overpaid" ∷ [] in
    elim (Bool-cases (includes s early)) [
      | inl y ↦ rw y (as_pending ((includes_iff s early).0 y) refl)
      | inr n ↦ elim (Bool-cases (includes s late)) [
        | inl y ↦ rw (n, y) (as_completed ((includes_iff s late).0 y) refl)
        | inr m ↦ elim (Bool-cases (s === text "expired")) [
          | inl y ↦ rw (n, m, y) (as_expired ((===_iff s (text "expired")).0 y) refl)
          | inr o ↦
              rw (n, m, o)
                (as_none (λ a. absurd (ground (arith, n, (includes_iff s early).1 a)))
                  (λ a. absurd (ground (arith, m, (includes_iff s late).1 a)))
                  (λ e. absurd (ground (arith, o, (===_iff s (text "expired")).1 e))) refl)
        ]
      ]
    ]

pub paid_status : nodeless_status (text "paid") ≡ known completed
unfolding nodeless_status includes ◌===◌
paid_status = refl

module _ {D : Type 0} (context : ProcessorContext D) where
  -- What writing the status that was sent for an invoice answers, and the database after it.
  pub data StatusWritten (id : Text) (status : SentStatus) (w : PaymentsState D)
      (o : Outcome (Option Invoice)) (db : D) : Type 0 where
    of_enumeration :
        (s : InvoiceStatus)
        → status ≡ known s
        → (o, db) ≡ context.service.update_status id s w.db
        → StatusWritten id status w o db
    no_value : status ≡ unknown → o ≡ failed other → db ≡ w.db → StatusWritten id status w o db
    date_alone : status ≡ absent → (o, db) ≡ context.touch id w.db → StatusWritten id status w o db

  pub write_status-StatusWritten :
      (id : Text) (status : SentStatus) (w : PaymentsState D)
      → StatusWritten id status w
          (write_status context id status w).0
          (write_status context id status w).1.db
  unfolding write_status update_invoice_status on_db
  write_status-StatusWritten id (known s) w = of_enumeration s refl refl
  write_status-StatusWritten id unknown w = no_value refl refl refl
  write_status-StatusWritten id absent w = date_alone refl refl

  -- Nothing but the database is written.
  pub write_status-db :
      (id : Text) (status : SentStatus) (w : PaymentsState D)
      → (write_status context id status w).1
        ≡ record w { db = (write_status context id status w).1.db }
  unfolding write_status update_invoice_status on_db
  write_status-db id (known s) w = refl
  write_status-db id unknown w = refl
  write_status-db id absent w = refl
