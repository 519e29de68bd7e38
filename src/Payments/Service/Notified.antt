-- ===== src/Payments/Service/Notified.antt =====
-- What `sendInvoiceUpdateNotification` of src/services/payments-service.ts writes.
use mathlib.Core.Path.{subst}
use nostream.Prelude.{ℕ, ◌/◌, sym, ◌≡◌, refl, ◌⊎◌, inl, inr, Option, some, [], ◌∷◌, ◌++◌}
use nostream.Prelude.Int.{ℤ}
use nostream.Prelude.Text.{Text, text}
use nostream.Prelude.Decimal.{decimal}
use nostream.Action.{Action, Outcome, done, failed, Thrown, catch, pure}
use nostream.Strategies.Effects.{Outcome-cases}
use nostream.Event.{Event, expiration_tag}
use nostream.Payments.{Invoice, InvoiceUnit, msats, sats, btc, PaymentsState}
use nostream.Payments.Service.{
  ServiceContext, on_db, broadcast_event, publish, notify_paid, send_invoice_update_notification,
  notification, named_amount, integer_text, thousandth,
}

-- What is thrown is forgotten, and what was written is not.
pub caught :
    {W : Type 0} (m : Action W (Unit {0})) (w : W) → catch m (λ t. pure tt) w ≡ (done tt, (m w).1)
caught m w = elim (Outcome-cases (m w).0) [ inl (u, h) ↦ rw h refl | inr (t, h) ↦ rw h refl ]

-- The text that names an amount, in satoshi where it is one in millisatoshi.
abbrev amount_text : InvoiceUnit → ℤ → Text
amount_text msats amount = integer_text (thousandth amount) ++ text " sats"
amount_text sats amount = integer_text amount ++ text " sats"
amount_text btc amount = integer_text amount ++ text " btc"

abbrev Failed : {A : Type 0} → Outcome A → Type 0
Failed o = (t : Thrown) × (o ≡ failed t)

module _ {D : Type 0} (context : ServiceContext D) where
  -- The relay's event that tells the payer of the invoice that the amount has been paid, before it
  -- has an id and a signature.
  pub record Notification (invoice : Invoice) (amount : ℤ) (e : Event) : Type 0 where
    pub kind : e.kind ≡ 402
    pub pubkey : e.pubkey ≡ context.relay_pubkey
    pub created_at : e.created_at ≡ context.payments.now / 1000
    pub tags :
        e.tags
        ≡ (text "p" ∷ invoice.pubkey ∷ [])
          ∷ (text "bolt11" ∷ invoice.bolt11 ∷ [])
          ∷ (expiration_tag ∷ decimal (context.month_later context.payments.now / 1000) ∷ [])
          ∷ []
    pub content : e.content ≡ text "Invoice paid: " ++ amount_text invoice.unit amount

  -- The notification has been identified and signed.
  pub record Prepared (invoice : Invoice) (amount : ℤ) (signed : Event) : Type 0 where
    pub unsigned : Event
    pub identified : Event
    pub is_notification : Notification invoice amount unsigned
    pub is_identified : context.identify unsigned ≡ done identified
    pub is_signed : context.sign identified ≡ done signed

  -- The notification of this invoice and amount is stored and then broadcast, or is as far on that
  -- way as the first call that throws.
  pub data Notified (invoice : Invoice) (amount : ℤ) (w w' : PaymentsState D) : Type 0 where
    unidentified :
        (unsigned : Event)
        → Notification invoice amount unsigned
        → Failed (context.identify unsigned)
        → w'.db ≡ w.db
        → w'.announced ≡ w.announced
        → Notified invoice amount w w'
    unsigned :
        (unsigned identified : Event)
        → Notification invoice amount unsigned
        → context.identify unsigned ≡ done identified
        → Failed (context.sign identified)
        → w'.db ≡ w.db
        → w'.announced ≡ w.announced
        → Notified invoice amount w w'
    unsent :
        (signed : Event)
        → Prepared invoice amount signed
        → w'.db ≡ (context.create_event signed w.db).1
        → Failed (context.create_event signed w.db).0 ⊎ Failed (context.send signed)
        → w'.announced ≡ w.announced
        → Notified invoice amount w w'
    sent :
        (signed : Event) (count : ℕ)
        → Prepared invoice amount signed
        → w'.db ≡ (context.create_event signed w.db).1
        → (context.create_event signed w.db).0 ≡ done count
        → context.send signed ≡ done tt
        → w'.announced ≡ w.announced ++ signed ∷ []
        → Notified invoice amount w w'

  publish-Notified :
      (invoice : Invoice) (amount : ℤ) (e : Event) (w : PaymentsState D)
      → Notification invoice amount e
      → Notified invoice amount w (publish context e w).1
  unfolding publish broadcast_event on_db
  publish-Notified invoice amount e w is = elim (Outcome-cases (context.identify e)) [
    | inr (t, h) ↦ rw h (unidentified e is (t, h) refl refl)
    | inl (identified, h) ↦ elim (Outcome-cases (context.sign identified)) [
      | inr (t, s) ↦ rw (h, s) (unsigned e identified is h (t, s) refl refl)
      | inl (signed, s) ↦
          let prepared : Prepared invoice amount signed = record {
            unsigned = e;
            identified = identified;
            is_notification = is;
            is_identified = h;
            is_signed = s;
          } in
          elim (Outcome-cases (context.create_event signed w.db).0) [
            | inr (t, c) ↦ rw (h, s, c) (unsent signed prepared refl (inl (t, c)) refl)
            | inl (n, c) ↦ elim (Outcome-cases (context.send signed)) [
              | inr (t, b) ↦ rw (h, s, c, b) (unsent signed prepared refl (inr (t, b)) refl)
              | inl (u, b) ↦ rw (h, s, c, b) (sent signed n prepared refl c b refl)
            ]
          ]
    ]
  ]

  content_lem :
      (invoice : Invoice) (unit : InvoiceUnit) (amount : ℤ) (relay : Text) (now expiration : ℕ)
      → (notification relay now expiration invoice (named_amount unit amount)).content
        ≡ text "Invoice paid: " ++ amount_text unit amount
  unfolding notification named_amount
  content_lem invoice msats amount relay now expiration = refl
  content_lem invoice sats amount relay now expiration = refl
  content_lem invoice btc amount relay now expiration = refl

  notification-Notification :
      (invoice : Invoice) (amount : ℤ)
      → Notification invoice amount (
          notification context.relay_pubkey context.payments.now
            (context.month_later context.payments.now)
            invoice
            (named_amount invoice.unit amount))
  unfolding notification
  notification-Notification invoice amount = record {
    kind = refl;
    pubkey = refl;
    created_at = refl;
    tags = refl;
    content =
        content_lem invoice invoice.unit amount context.relay_pubkey context.payments.now
          (context.month_later context.payments.now);
  }

  abbrev Sent : Invoice → ℤ → Option ℤ → PaymentsState D → Type 0
  Sent invoice amount o w =
      ((notify_paid context invoice o w).0 ≡ done tt)
      × Notified invoice amount w (notify_paid context invoice o w).1

  notify_paid-Sent :
      (invoice : Invoice) (amount : ℤ) (w : PaymentsState D) → Sent invoice amount (some amount) w
  unfolding notify_paid
  notify_paid-Sent invoice amount w =
      let now = context.payments.now in
      let e =
        notification context.relay_pubkey now (context.month_later now) invoice
          (named_amount invoice.unit amount) in
      rw (caught (publish context e) w)
        (refl, publish-Notified invoice amount e w (notification-Notification invoice amount))

  -- The payer of an invoice with an amount is notified, and nothing is thrown.
  pub send_invoice_update_notification-Notified :
      (invoice : Invoice) (amount : ℤ) (w : PaymentsState D)
      → invoice.amount_paid ≡ some amount
      → ((send_invoice_update_notification context invoice w).0 ≡ done tt)
        × Notified invoice amount w (send_invoice_update_notification context invoice w).1
  unfolding send_invoice_update_notification
  send_invoice_update_notification-Notified invoice amount w h =
      subst (λ o. Sent invoice amount o w) (sym h) (notify_paid-Sent invoice amount w)
