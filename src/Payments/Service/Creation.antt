-- ===== src/Payments/Service/Creation.antt =====
-- Creating an invoice, in src/services/payments-service.ts, writes the user and the invoice or
-- nothing.
use nostream.Prelude.{ℕ, ◌≡◌, refl, ◌∙◌, ◌⊎◌, inl, inr, none}
use nostream.Prelude.Int.{ℤ}
use nostream.Prelude.Text.{Text}
use nostream.Action.{Outcome, done, failed, Thrown}
use nostream.Strategies.Effects.{Outcome-cases}
use nostream.Payments.{
  Invoice, PaymentsState, begin_transaction, in_transaction, commit_transaction,
}
use nostream.Payments.Atomic.{rolled_back}
use nostream.Payments.Service.{
  InvoiceResponse, ServiceContext, stored_invoice, returned_invoice, create_within, create_invoice,
}

-- An invoice as the processor's answer describes it, pending payment, with a description and dates.
abbrev pub invoice_of_response : Text → Text → ℕ → ℕ → InvoiceResponse → Invoice
invoice_of_response pubkey description created_at updated_at response = record {
  id = response.id;
  pubkey = pubkey;
  bolt11 = response.bolt11;
  amount_requested = response.amount_requested;
  amount_paid = none;
  unit = response.unit;
  status = response.status;
  description = description;
  confirmed_at = none;
  expires_at = response.expires_at;
  updated_at = updated_at;
  created_at = created_at;
  verify_url = response.verify_url;
}

module _ {D : Type 0} (context : ServiceContext D) where
  -- What is written within the transaction `start`, up to the commit that gives `db`.
  pub record Stored (pubkey : Text) (response : InvoiceResponse) (start db : D) : Type 0 where
    pub user : (n : ℕ) × ((context.upsert_user pubkey start).0 ≡ done n)
    pub invoice :
        let now = context.payments.now in
        let invoice = invoice_of_response pubkey response.description now now response in
        let middle = (context.upsert_user pubkey start).1 in
        ((n : ℕ) × ((context.upsert_invoice invoice middle).0 ≡ done n))
        × (context.payments.commit (context.upsert_invoice invoice middle).1 ≡ done db)

  pub data Creation (pubkey : Text) (amount : ℤ) (description : Text) (w : PaymentsState D)
      (r : Outcome Invoice × PaymentsState D) : Type 0 where
    unchanged :
        (t : Thrown) → r.0 ≡ failed t → r.1.db ≡ w.db → Creation pubkey amount description w r
    created :
        (response : InvoiceResponse) (start : D)
        → context.processor_create_invoice amount description pubkey ≡ done response
        → context.payments.begin w.db ≡ done start
        → r.0
          ≡ done (
              invoice_of_response pubkey description response.created_at context.payments.now
                response)
        → Stored pubkey response start r.1.db
        → Creation pubkey amount description w r

  abbrev WithinCreation : Text → ℤ → Text → PaymentsState D → Type 0
  WithinCreation pubkey amount description w =
      ((t : Thrown) × ((create_within context pubkey amount description w).0 ≡ failed t)
        × ((create_within context pubkey amount description w).1.db ≡ w.db))
      ⊎ ((response : InvoiceResponse) × (start : D) × (context.processor_create_invoice amount
              description pubkey
            ≡ done response)
          × (context.payments.begin w.db ≡ done start)
          × ((create_within context pubkey amount description w).0
              ≡ done (
                  invoice_of_response pubkey description response.created_at context.payments.now
                    response))
          × Stored pubkey response start (create_within context pubkey amount description w).1.db)

  create_within_lem :
      (pubkey : Text) (amount : ℤ) (description : Text) (w : PaymentsState D)
      → WithinCreation pubkey amount description w
  unfolding create_within stored_invoice returned_invoice begin_transaction in_transaction
      commit_transaction
  create_within_lem pubkey amount description w =
      elim (Outcome-cases (context.payments.begin w.db)) [
        | inr (t, h) ↦ inl (t, rw h, rw h)
        | inl (start, h) ↦
            let one = context.upsert_user pubkey start in
            elim (Outcome-cases one.0) [
              | inr (t, o) ↦ inl (t, rw (h, o), rw (h, o))
              | inl (n, o) ↦
                  elim (Outcome-cases
                    (context.processor_create_invoice amount description pubkey)) [
                      | inr (t, p) ↦ inl (t, rw (h, o, p), rw (h, o, p))
                      | inl (response, p) ↦
                          let now = context.payments.now in
                          let invoice =
                            invoice_of_response pubkey response.description now now response in
                          let two = context.upsert_invoice invoice one.1 in
                          elim (Outcome-cases two.0) [
                            | inr (t, q) ↦ inl (t, rw (h, o, p, q), rw (h, o, p, q))
                            | inl (m, q) ↦ elim (Outcome-cases (context.payments.commit two.1)) [
                              | inr (t, c) ↦ inl (t, rw (h, o, p, q, c), rw (h, o, p, q, c))
                              | inl (db, c) ↦ inr (
                                response,
                                start,
                                p,
                                h,
                                rw (h, o, p, q, c),
                                rw (h, o, p, q, c)
                                    (record { user = (n, o); invoice = ((m, q), c) }),
                              )
                            ]
                          ]
                    ]
            ]
      ]

  -- Creating an invoice ends in one of two ways. It throws, and the database is as before. Or the
  -- payments processor has answered, and what has been committed, in one transaction, is the user
  -- and then the invoice of the processor's answer, for the public key, not paid and not confirmed,
  -- with the time of the service as its dates; and the invoice returned is the same, but with the
  -- description that was asked for and the date of the processor's answer.
  pub create_invoice-Creation :
      (pubkey : Text) (amount : ℤ) (description : Text) (w : PaymentsState D)
      → Creation pubkey amount description w (create_invoice context pubkey amount description w)
  unfolding create_invoice
  create_invoice-Creation pubkey amount description w =
      let v = record w { trx = none } in
      elim (create_within_lem pubkey amount description v) [
        | inl (t, e, same) ↦
            let back =
              rolled_back context.payments {A = Invoice} t
                (create_within context pubkey amount description v).1 in
            rw e (unchanged back.0.0 back.0.1 (back.1 ∙ same))
        | inr (response, start, p, b, e, stored) ↦ rw e (created response start p b refl stored)
      ]
