-- ===== src/Controllers/Nodeless.antt =====
-- What src/controllers/callbacks/nodeless-callback-controller.ts writes, and for which requests.
use nostream.Prelude.{
  ap, if◌then◌else◌, ◌≡◌, ◌≢◌, refl, ◌∙◌, ◌⊎◌, inl, inr, false, Option, none, some, List, arith,
  Bool-cases, ℕ,
}
use nostream.Prelude.Int.{ℤ}
use nostream.Prelude.Text.{Text, text, ◌===◌, ===_iff, is_text, is_text_iff}
use nostream.Action.{Outcome, done}
use nostream.Bytes.{from_buffer}
use nostream.Strategies.Effects.{Outcome-cases}
use nostream.Payments.{Invoice, InvoiceStatus, completed, PaymentsState}
use nostream.Payments.Atomic.{Confirmation, unchanged, confirmed}
use nostream.Payments.Service.Notified.{Notified}
use nostream.Controllers.{HttpResponse}
use nostream.Controllers.Lnbits.{string, buffer}
use nostream.Controllers.Signed.{HasProcessor}
use nostream.Controllers.Status.{
  ReadsAs, nodeless_status-ReadsAs, paid_status, of_enumeration, no_value, date_alone,
  StatusWritten,
}
use nostream.Controllers.Acknowledged.{is_acknowledged}
use nostream.Controllers.Bodies.{
  SentStatus, known, SentInvoice, NodelessBody, nodeless_status, from_nodeless_invoice,
}
use nostream.Controllers.Processors.{
  ProcessorContext, take_invoice, nodeless_confirmation, json_answer, is_processor,
  nodeless_signature, nodeless_callback,
}
use nostream.Controllers.Settled.{
  Unsettled, Taken, written, settled, take_invoice-Taken, is_processor_lem, is_processor_complete,
  unread_lem, with_amount_lem,
}

module _ {D : Type 0} (context : ProcessorContext D) where
  known_lem :
      (id : Text) (s : InvoiceStatus) (status : SentStatus) (w : PaymentsState D)
      (o : Outcome (Option Invoice)) (db : D)
      → status ≡ known s
      → StatusWritten context id status w o db
      → (o, db) ≡ context.service.update_status id s w.db
  known_lem id s status w o db e (of_enumeration t f h) =
      let same : t ≡ s = ground arith in rw⁻¹ same h
  known_lem id s status w o db e (no_value f _ _) = absurd (ground arith)
  known_lem id s status w o db e (date_alone f _) = absurd (ground arith)

  confirmed_date :
      (invoice : Invoice) (w : PaymentsState D) (c : Outcome (Unit {0}) × PaymentsState D)
      → Confirmation context.service.payments invoice w c
      → c.0 ≡ done tt
      → (date : ℕ) × (invoice.confirmed_at ≡ some date)
  confirmed_date invoice w c (unchanged t f _) h = absurd (ground arith)
  confirmed_date invoice w c (confirmed _ date _ _ _ e _ _ _) h = (date, e)

  -- Nodeless is the payments processor, the header holds the HMAC of the body, and the body's amount
  -- is read.
  pub record Accepted (raw : List ℕ) (signature : Option Text) (body : NodelessBody) (amount : ℤ)
      : Type 0 where
    pub is_signed :
        signature
        ≡ some (
            from_buffer (context.hmac_sha256 (string context.nodeless_webhook_secret) (buffer raw)))
    pub processor : HasProcessor context.service.payments.settings (text "nodeless")
    pub is_read : body.amount ≡ done amount

  pub data NodelessEnds (raw : List ℕ) (signature : Option Text) (body : NodelessBody)
      (w : PaymentsState D) (r : Outcome HttpResponse × PaymentsState D) : Type 0 where
    untouched_body :
        ((amount : ℤ) → ¬ Accepted raw signature body amount)
        → is_acknowledged r.0 ≡ false
        → r.1 ≡ w
        → NodelessEnds raw signature body w r
    written_body :
        (amount : ℤ) (status : SentStatus) (o : Outcome (Option Invoice)) (db : D)
        → Accepted raw signature body amount
        → ReadsAs body.status status
        → StatusWritten context body.uuid status w o db
        → (body.status ≢ text "paid")
          ⊎ Unsettled context
              (λ updated. record updated {
                id = body.uuid;
                pubkey = body.request_id;
                unit = body.unit;
                status = completed;
                confirmed_at = some context.service.payments.now;
                amount_paid = some amount;
              })
              w
              o
              db
        → r.1.db ≡ db
        → is_acknowledged r.0 ≡ false
        → NodelessEnds raw signature body w r
    settled_body :
        (amount : ℤ) (updated : Invoice) (c : Outcome (Unit {0}) × PaymentsState D)
        → Accepted raw signature body amount
        → body.status ≡ text "paid"
        → (context.service.update_status body.uuid completed w.db).0 ≡ done (some updated)
        → Confirmation context.service.payments
            (record updated {
              id = body.uuid;
              pubkey = body.request_id;
              unit = body.unit;
              status = completed;
              confirmed_at = some context.service.payments.now;
              amount_paid = some amount;
            })
            (record w { db = (context.service.update_status body.uuid completed w.db).1 })
            c
        → c.0 ≡ done tt
        → Notified context.service (record updated { amount_paid = some amount }) amount c.1 r.1
        → r.0 ≡ done json_answer
        → NodelessEnds raw signature body w r

  abbrev invoice_of : NodelessBody → ℤ → SentInvoice
  invoice_of body amount = record {
    id = body.uuid;
    pubkey = body.request_id;
    amount_requested = amount;
    unit = body.unit;
    status = nodeless_status body.status;
    confirmed_at = if body.status === text "paid" then some context.service.payments.now else none;
  }

  Taken-NodelessEnds :
      (raw : List ℕ) (signature : Option Text) (body : NodelessBody) (amount : ℤ)
      (w : PaymentsState D) (r : Outcome HttpResponse × PaymentsState D)
      → Accepted raw signature body amount
      → Taken context body.uuid
          (nodeless_status body.status)
          amount
          (nodeless_confirmation (invoice_of body amount))
          json_answer
          w
          r
      → NodelessEnds raw signature body w r
  unfolding nodeless_confirmation
  Taken-NodelessEnds raw signature body amount w r ok (written o db status why same n) =
      elim (Bool-cases (body.status === text "paid")) [
        | inr apart ↦
            written_body amount (nodeless_status body.status) o db ok
              (nodeless_status-ReadsAs body.status) status
              (inl (λ e. absurd (ground (arith, apart, (===_iff body.status (text "paid")).1 e))))
              same n
        | inl y ↦
            let e = (===_iff body.status (text "paid")).0 y in
            let is_completed : nodeless_status body.status ≡ known completed =
              ap nodeless_status e ∙ paid_status in
            written_body amount (nodeless_status body.status) o db ok
              (nodeless_status-ReadsAs body.status) status (inr (rw (y, is_completed) at why)) same
              n
      ]
  Taken-NodelessEnds raw signature body amount w r ok (settled updated db c status whole f told a) =
      elim (Bool-cases (body.status === text "paid")) [
        | inr n ↦ absurd (ground (arith, rw n at (confirmed_date _ _ c whole f).1))
        | inl y ↦
            let e = (===_iff body.status (text "paid")).0 y in
            let is_completed : nodeless_status body.status ≡ known completed =
              ap nodeless_status e ∙ paid_status in
            let k =
              known_lem body.uuid completed (nodeless_status body.status) w (done (some updated)) db
                is_completed status in
            settled_body amount updated c ok e (ground (arith, k))
              (rw⁻¹ k (rw (y, is_completed) at whole)) f told a
      ]

  -- A callback of Nodeless whose header holds the HMAC of the body, with Nodeless as the payments
  -- processor and an amount that can be read, ends in one of two ways. The body's status is "paid",
  -- and the invoice that writing the status as completed gives is confirmed, which writes what
  -- `confirmInvoice` commits, with the id, the public key and the unit that were sent, as completed at
  -- the time of the callback, and the amount that was sent as the amount paid; its payer is notified
  -- of that amount, as far as the calls for that do not throw; and the answer is the one for a
  -- success. Or no more is written than the status that the body's status stands for, and the answer
  -- is no text with the status 200: then the body's status is not "paid", or writing it gives no
  -- invoice or one that is neither completed nor dated, or the confirmation throws. Of any other
  -- request nothing is changed, and the answer is no such text either.
  pub nodeless_callback-NodelessEnds :
      (raw : List ℕ) (signature : Option Text) (body : NodelessBody) (w : PaymentsState D)
      → NodelessEnds raw signature body w (nodeless_callback context raw signature body w)
  unfolding nodeless_callback nodeless_signature take_invoice from_nodeless_invoice
  nodeless_callback-NodelessEnds raw signature body w =
      let expected =
        from_buffer (context.hmac_sha256 (string context.nodeless_webhook_secret) (buffer raw)) in
      elim (Bool-cases (is_text signature expected)) [
        | inr n ↦ rw n (
            untouched_body
              (λ amount ok.
                absurd (ground (arith, n, (is_text_iff signature expected).1 ok.is_signed)))
              refl refl)
        | inl s ↦ elim (Bool-cases (is_processor context (text "nodeless"))) [
          | inr n ↦
              rw (s, n)
                (untouched_body
                  (λ amount ok.
                    let p = is_processor_complete context (text "nodeless") ok.processor in
                    absurd (ground (arith, n, p)))
                  refl refl)
          | inl y ↦ elim (Outcome-cases (from_nodeless_invoice context.service.payments.now body)) [
            | inr (t, b) ↦
                rw (s, y, b)
                  (untouched_body (λ n ok. unread_lem body.amount _ t n b ok.is_read) refl refl)
            | inl (invoice, b) ↦
                let (amount, is_read, e) = with_amount_lem body.amount _ invoice b in
                let ok : Accepted raw signature body amount = record {
                  is_signed = (is_text_iff signature expected).0 s;
                  processor = is_processor_lem context (text "nodeless") y;
                  is_read = is_read;
                } in
                rw (s, y, b)
                  (Taken-NodelessEnds raw signature body amount w _ ok
                    (rw e (take_invoice-Taken context nodeless_confirmation json_answer _ w)))
          ]
        ]
      ]
