-- ===== src/Payments/Atomic.antt =====
-- Confirming an invoice, in src/services/payments-service.ts, writes everything or nothing.
use nostream.Prelude.{
  ℕ, ◌≡◌, refl, ap, ◌∙◌, ◌⊎◌, inl, inr, true, false, Option, none, some, arith, Bool-cases,
  Option-cases,
}
use nostream.Prelude.Int.{ℤ}
use nostream.Action.{Outcome, done, failed, Thrown, throw, ◌>>◌}
use nostream.Strategies.Effects.{Outcome-cases}
use nostream.Payments.{
  Invoice, InvoiceStatus, pending, completed, expired, PaymentsContext, PaymentsState,
  is_admission_paid, check_invoice, check_status, check_amount, begin_transaction, in_transaction,
  commit_transaction, rollback_transaction, admit_payer, confirm_checked, confirm_invoice,
  not_started,
}

check_amount_lem :
    (o : Option ℤ) (d : ℕ) (amount : ℤ) (date : ℕ)
    → check_amount o d ≡ done (amount, date)
    → (o ≡ some amount) × (d ≡ date)
check_amount_lem none d amount date h = absurd (ground arith)
check_amount_lem (some a) d amount date h = (ground arith, ground arith)

check_status_lem :
    (s : InvoiceStatus) (o : Option ℤ) (d : ℕ) (amount : ℤ) (date : ℕ)
    → check_status s o d ≡ done (amount, date)
    → (s ≡ completed) × (o ≡ some amount) × (d ≡ date)
check_status_lem pending o d amount date h = absurd (ground arith)
check_status_lem expired o d amount date h = absurd (ground arith)
check_status_lem completed o d amount date h =
    let (a, b) = check_amount_lem o d amount date h in (refl, a, b)

check_invoice_lem :
    (invoice : Invoice) (amount : ℤ) (date : ℕ)
    → check_invoice invoice ≡ done (amount, date)
    → (invoice.status ≡ completed)
      × (invoice.amount_paid ≡ some amount)
      × (invoice.confirmed_at ≡ some date)
unfolding check_invoice
check_invoice_lem invoice amount date h = elim (Option-cases invoice.confirmed_at) [
  | inl n ↦ absurd (ground arith)
  | inr (d, e) ↦
      let (s, a, same) =
        check_status_lem invoice.status invoice.amount_paid d amount date (rw e at h) in
      (s, a, e ∙ ap some same)
]

module _ {D : Type 0} (context : PaymentsContext D) where
  -- What is written within the transaction `start`, up to the commit that gives `db`.
  pub record Written (invoice : Invoice) (amount : ℤ) (date : ℕ) (start db : D) : Type 0 where
    pub confirmed : (context.confirm_invoice_in_db invoice.id amount date start).0 ≡ done tt
    pub admission :
        let middle = (context.confirm_invoice_in_db invoice.id amount date start).1 in
        ((is_admission_paid context.settings invoice amount ≡ false)
          × (context.commit middle ≡ done db))
        ⊎ ((is_admission_paid context.settings invoice amount ≡ true)
            × ((count : ℕ) × ((context.upsert_admitted invoice.pubkey context.now middle).0
                  ≡ done count))
            × (context.commit (context.upsert_admitted invoice.pubkey context.now middle).1
                ≡ done db))

  pub data Confirmation (invoice : Invoice) (w : PaymentsState D)
      (r : Outcome (Unit {0}) × PaymentsState D) : Type 0 where
    unchanged : (t : Thrown) → r.0 ≡ failed t → r.1.db ≡ w.db → Confirmation invoice w r
    confirmed :
        (amount : ℤ) (date : ℕ) (start : D)
        → invoice.status ≡ completed
        → invoice.amount_paid ≡ some amount
        → invoice.confirmed_at ≡ some date
        → context.begin w.db ≡ done start
        → r.0 ≡ done tt
        → Written invoice amount date start r.1.db
        → Confirmation invoice w r

  confirm_checked_lem :
      (invoice : Invoice) (amount : ℤ) (date : ℕ) (w : PaymentsState D)
      → ((t : Thrown) × ((confirm_checked context invoice (amount, date) w).0 ≡ failed t)
          × ((confirm_checked context invoice (amount, date) w).1.db ≡ w.db))
        ⊎ ((start : D) × (context.begin w.db ≡ done start)
            × ((confirm_checked context invoice (amount, date) w).0 ≡ done tt)
            × Written invoice amount date start
                (confirm_checked context invoice (amount, date) w).1.db)
  unfolding confirm_checked begin_transaction in_transaction admit_payer commit_transaction
  confirm_checked_lem invoice amount date w = elim (Outcome-cases (context.begin w.db)) [
    | inr (t, h) ↦ inl (t, rw h, rw h)
    | inl (start, h) ↦
        let one = context.confirm_invoice_in_db invoice.id amount date start in
        elim (Outcome-cases one.0) [
          | inr (t, o) ↦ inl (t, rw (h, o), rw (h, o))
          | inl (u, o) ↦ elim (Bool-cases (is_admission_paid context.settings invoice amount)) [
            | inr free ↦ elim (Outcome-cases (context.commit one.1)) [
              | inr (t, c) ↦ inl (t, rw (h, o, free, c), rw (h, o, free, c))
              | inl (db, c) ↦ inr (
                start,
                h,
                rw (h, o, free, c),
                rw (h, o, free, c) (record { confirmed = o; admission = inl (free, c) }),
              )
            ]
            | inl paid ↦
                let two = context.upsert_admitted invoice.pubkey context.now one.1 in
                elim (Outcome-cases two.0) [
                  | inr (t, a) ↦ inl (t, rw (h, o, paid, a), rw (h, o, paid, a))
                  | inl (n, a) ↦ elim (Outcome-cases (context.commit two.1)) [
                    | inr (t, c) ↦ inl (t, rw (h, o, paid, a, c), rw (h, o, paid, a, c))
                    | inl (db, c) ↦ inr (
                      start,
                      h,
                      rw (h, o, paid, a, c),
                      rw (h, o, paid, a, c)
                          (record { confirmed = o; admission = inr (paid, (n, a), c) }),
                    )
                  ]
                ]
          ]
        ]
  ]

  pub rolled_back :
      {A : Type 0} (t : Thrown) (w : PaymentsState D)
      → let r : Outcome A × PaymentsState D = (rollback_transaction context >> throw t) w in
        ((u : Thrown) × (r.0 ≡ failed u)) × (r.1.db ≡ w.db)
  unfolding rollback_transaction
  rolled_back t w = elim (Option-cases w.trx) [
    | inl h ↦ ((not_started, rw h), rw h)
    | inr (db, h) ↦ ((t, rw h), rw h)
  ]

  -- Confirming an invoice ends in one of two ways. It throws, and the database is as before. Or it
  -- ends, the invoice is completed, paid and has a confirmation date, and what has been committed, in
  -- one transaction, is the confirmation of the invoice and, exactly where the amount paid reaches
  -- the sum of the admission fees that apply and that sum is not 0, the admission of the user.
  pub confirm_invoice-Confirmation :
      (invoice : Invoice) (w : PaymentsState D)
      → Confirmation invoice w (confirm_invoice context invoice w)
  unfolding confirm_invoice
  confirm_invoice-Confirmation invoice w =
      let v = record w { trx = none } in
      elim (Outcome-cases (check_invoice invoice)) [
        | inr (t, h) ↦ let ((u, e), same) = rolled_back t v in rw h (unchanged u e same)
        | inl ((amount, date), h) ↦
            let (status, paid, dated) = check_invoice_lem invoice amount date h in
            elim (confirm_checked_lem invoice amount date v) [
              | inl (t, e, same) ↦
                  let back = rolled_back t (confirm_checked context invoice (amount, date) v).1 in
                  rw (h, e) (unchanged back.0.0 back.0.1 (back.1 ∙ same))
              | inr (start, b, e, written) ↦
                  rw (h, e) (confirmed amount date start status paid dated b refl written)
            ]
      ]
