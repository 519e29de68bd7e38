-- ===== src/Controllers/Callback.antt =====
-- What src/controllers/callbacks/lnbits-callback-controller.ts writes, and for which requests.
use nostream.Prelude.{
  ◌≡◌, refl, ap, ◌∙◌, inl, inr, Bool, true, false, Option, none, some, ◌==◌, arith, Bool-cases,
  length,
}
use nostream.Prelude.Text.{Text}
use nostream.Action.{done}
use nostream.Strategies.Effects.{Outcome-cases}
use nostream.Payments.{is_same_status, Invoice, completed, PaymentsState, confirm_invoice}
use nostream.Payments.Atomic.{unchanged, confirmed, confirm_invoice-Confirmation}
use nostream.Payments.Service.{update_invoice, update_invoice_status, on_db}
use nostream.Payments.Service.Notified.{send_invoice_update_notification-Notified}
use nostream.Controllers.{refuse, get_remote_address}
use nostream.Controllers.Lnbits.{
  LnbitsRequest, LnbitsContext, is_payment_hash, is_unpaid, is_validated, confirm_paid,
  after_update, on_stored, on_payment_hash, on_validated, is_lnbits, lnbits_callback,
}
use nostream.Controllers.Signed.{is_lnbits_lem, is_lnbits_complete, is_validated_lem}
use nostream.Controllers.Acknowledged.{
  completed_lem, is_unpaid_lem, same_completed, Authentic, Known, status_written, paid_in_full,
  not_written, not_paid, settled_before, not_confirmed, CallbackEnds, untouched, updated, settled,
}

module _ {D : Type 0} (context : LnbitsContext D) where
  confirm_paid_lem :
      (r : LnbitsRequest) (w : PaymentsState D) (invoice stored : Invoice)
      → Known context r w invoice stored
      → ¬ (stored.status ≡ completed)
      → CallbackEnds context r w
          (confirm_paid context (paid_in_full context invoice) (status_written context invoice w))
  unfolding confirm_paid
  confirm_paid_lem r w invoice stored known unsettled =
      let v = status_written context invoice w in
      let payments = context.service.payments in
      let whole = confirm_invoice-Confirmation payments (paid_in_full context invoice) v in
      elim (confirm_invoice-Confirmation payments (paid_in_full context invoice) v) [
        | unchanged t f same ↦
            updated invoice stored known (not_confirmed t f) (rw f refl) (rw f same)
        | confirmed _ _ _ _ _ _ _ f _ ↦
            let c = confirm_invoice payments (paid_in_full context invoice) v in
            let (sent, told) =
              send_invoice_update_notification-Notified context.service
                (paid_in_full context invoice) invoice.amount_requested c.1 refl in
            settled invoice stored known unsettled (rw (f, sent) refl) f whole (rw (f, sent) told)
      ]

  after_update_lem :
      (r : LnbitsRequest) (w : PaymentsState D) (invoice stored : Invoice)
      → Known context r w invoice stored
      → CallbackEnds context r w
          (after_update context stored invoice (status_written context invoice w))
  unfolding after_update refuse
  after_update_lem r w invoice stored known = elim (Bool-cases (is_unpaid invoice)) [
    | inl y ↦
        let (open_status, undated) = is_unpaid_lem invoice y in
        rw y (updated invoice stored known (not_paid open_status undated) refl refl)
    | inr n ↦ elim (Bool-cases (is_same_status stored.status completed)) [
      | inl d ↦
          rw (n, d)
            (updated invoice stored known (settled_before (same_completed stored.status d)) refl
              refl)
      | inr o ↦
          rw (n, o) (confirm_paid_lem r w invoice stored known (completed_lem stored.status o))
    ]
  ]

  on_stored_lem :
      (r : LnbitsRequest) (w : PaymentsState D) (invoice : Invoice) (found : Option Invoice)
      → ((stored : Invoice) → found ≡ some stored → Known context r w invoice stored)
      → (found ≡ none → (other stored : Invoice) → ¬ Known context r w other stored)
      → CallbackEnds context r w (on_stored context invoice found w)
  unfolding on_stored refuse update_invoice update_invoice_status on_db
  on_stored_lem r w invoice none known missing = untouched (inr (missing refl)) refl refl
  on_stored_lem r w invoice (some stored) known missing =
      elim (Outcome-cases (context.service.update_status invoice.id invoice.status w.db).0) [
        | inr (t, h) ↦ rw h (updated invoice stored (known stored refl) (not_written t h) refl refl)
        | inl (u, h) ↦ rw h (after_update_lem r w invoice stored (known stored refl))
      ]

  on_payment_hash_lem :
      (r : LnbitsRequest) (w : PaymentsState D) (hash : Text)
      → Authentic context r
      → r.payment_hash ≡ some hash
      → length hash ≡ 64
      → CallbackEnds context r w (on_payment_hash context hash w)
  unfolding on_payment_hash
  on_payment_hash_lem r w hash authentic named long =
      elim (Outcome-cases (context.get_invoice hash)) [
        | inr (t, e) ↦ rw e (
            untouched
              (inr (λ i s k.
                let same : k.hash ≡ hash = ground (arith, named, k.is_named) in
                let fetched = rw same at k.is_fetched in absurd (ground (arith, e, fetched))))
              refl refl)
        | inl (invoice, e) ↦ elim (Outcome-cases (context.find_by_id hash w.db)) [
          | inr (t, f) ↦
              rw (e, f)
                (untouched
                  (inr (λ i s k.
                    let same : k.hash ≡ hash = ground (arith, named, k.is_named) in
                    let found = rw same at k.is_stored in absurd (ground (arith, f, found))))
                  refl refl)
          | inl (found, f) ↦
              rw (e, f)
                (on_stored_lem r w invoice found
                  (λ stored s. record {
                    authentic = authentic;
                    hash = hash;
                    is_named = named;
                    is_long = long;
                    is_fetched = e;
                    is_stored = f ∙ ap done s;
                  })
                  (λ n i s k.
                    let same : k.hash ≡ hash = ground (arith, named, k.is_named) in
                    let stored = rw same at k.is_stored in absurd (ground (arith, f, n, stored))))
        ]
      ]

  on_validated_lem :
      (r : LnbitsRequest) (w : PaymentsState D) (hash : Option Text) (valid : Bool)
      → (valid ≡ true → Authentic context r)
      → is_validated context r.hmac ≡ done valid
      → r.payment_hash ≡ hash
      → CallbackEnds context r w (on_validated context hash valid w)
  unfolding on_validated refuse is_payment_hash
  on_validated_lem r w _ false authentic validated named =
      untouched (inl (λ v. absurd (ground (arith, validated, v)))) refl refl
  on_validated_lem r w none true authentic validated named =
      untouched (inr (λ i s k. absurd (ground (arith, named, k.is_named)))) refl refl
  on_validated_lem r w (some hash) true authentic validated named =
      elim (Bool-cases (length hash == 64)) [
        | inl y ↦ rw y (on_payment_hash_lem r w hash (authentic refl) named (ground arith))
        | inr n ↦ rw n (
            untouched
              (inr (λ i s k.
                let same : k.hash ≡ hash = ground (arith, named, k.is_named) in
                let long = rw same at k.is_long in absurd (ground (arith, n, long))))
              refl refl)
      ]

  -- A callback of LNbits ends in one of three ways. Nothing is written in the database, and the answer
  -- is no text with the status 200: then the validation of the signature does not pass, or something
  -- else that the other two need is missing. Or only the status of the invoice is written, as the payments
  -- processor gives it, with no such answer either: then writing it throws, the processor has the
  -- invoice neither as completed nor dated, the invoice was stored as completed before, or the
  -- confirmation throws. Or that status is written, the processor's invoice is confirmed as paid in
  -- the amount that was requested, which writes what `confirmInvoice` commits, its payer is notified
  -- of that amount, as far as the calls for that do not throw, and the answer is OK. The last two need
  -- that LNbits is the payments processor, that the query is signed with the key of the callback for a
  -- time that has not come, and that an invoice with the hash is stored; the last one that it is not
  -- stored as completed.
  pub lnbits_callback-CallbackEnds :
      (r : LnbitsRequest) (w : PaymentsState D)
      → CallbackEnds context r w (lnbits_callback context r w)
  unfolding lnbits_callback
  lnbits_callback-CallbackEnds r w =
      elim (Outcome-cases (get_remote_address r.request context.service.payments.settings)) [
        | inr (t, a) ↦ rw a (
            untouched (inr (λ i s k. absurd (ground (arith, a, k.authentic.is_address)))) refl refl)
        | inl (address, a) ↦ elim (Bool-cases (is_lnbits context)) [
          | inr n ↦
              rw (a, n)
                (untouched
                  (inr (λ i s k.
                    absurd (ground (arith, n, is_lnbits_complete context k.authentic.processor))))
                  refl refl)
          | inl y ↦ elim (Outcome-cases (is_validated context r.hmac)) [
            | inr (t, v) ↦
                rw (a, y, v) (untouched (inl (λ u. absurd (ground (arith, v, u)))) refl refl)
            | inl (valid, v) ↦
                rw (a, y, v)
                  (on_validated_lem r w r.payment_hash valid
                    (λ e.
                      let (s, given, signed) = is_validated_lem context r.hmac (v ∙ ap done e) in
                      record {
                        address = address;
                        is_address = a;
                        hmac = s;
                        processor = is_lnbits_lem context y;
                        is_given = given;
                        is_signed = signed;
                      })
                    v refl)
          ]
        ]
      ]
