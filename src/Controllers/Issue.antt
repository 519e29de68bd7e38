-- ===== src/Controllers/Issue.antt =====
-- The steps of `handleRequest` of src/controllers/invoices/post-invoice-controller.ts end in an error,
-- a refusal or an invoice.
use nostream.Prelude.{ℕ, ◌≤◌, ◌≡◌, refl, inl, inr, Option, List, [], ◌∷◌, arith, Bool-cases}
use nostream.Prelude.Int.{pos}
use nostream.Prelude.Text.{Text, text}
use nostream.Action.{Outcome, done, failed, Thrown}
use nostream.Strategies.Effects.{Outcome-cases}
use nostream.Settings.{FeeSchedule}
use nostream.EventHandler.Admission.{min_balance_of}
use nostream.EventHandler.Admission.Admitted.{MayWrite}
use nostream.Repository.{User}
use nostream.Payments.{Invoice, PaymentsState}
use nostream.Payments.Service.{create_invoice}
use nostream.Payments.Service.Creation.{unchanged, created, create_invoice-Creation}
use nostream.Bytes.Bech32.{to_bech32}
use nostream.Controllers.{
  HttpResponse, refuse, is_admitted_user, ControllerContext, ControllerState,
}
use nostream.Controllers.Limits.{is_admitted_user_iff}
use nostream.Controllers.Invoice.{
  NamedKey, named, unnamed, admission_fees, admission_amount, answer, description_for,
  create_admission_invoice, issue, on_user, on_fees, on_key,
}

module _ {D C : Type 0} (context : ControllerContext D C) where
  -- The invoice that is created and sent back.
  pub record Issued (page pubkey : Text) (amount : ℕ) (payments : PaymentsState D)
      (r : Outcome HttpResponse × ControllerState D C) : Type 0 where
    pub npub : Text
    pub invoice : Invoice
    pub is_encoded : to_bech32 context.bech32 (text "npub") pubkey ≡ done npub
    pub is_created :
        (create_invoice context.service pubkey
          (pos amount)
          (description_for context npub)
          payments).0
        ≡ done invoice
    pub state :
        r.1.payments
        ≡ (create_invoice context.service pubkey
            (pos amount)
            (description_for context npub)
            payments).1
    pub is_answered : r.0 ≡ done (answer context page pubkey amount (done invoice))

  -- `Asked` is what has been tested of the page, the public key and the amount.
  pub data InvoiceEnds (Asked : Text → Text → ℕ → Type 0) (payments : PaymentsState D)
      (r : Outcome HttpResponse × ControllerState D C) : Type 0 where
    threw : (t : Thrown) → r.0 ≡ failed t → r.1.payments ≡ payments → InvoiceEnds Asked payments r
    refused :
        (response : HttpResponse)
        → r.0 ≡ done response
        → 400 ≤ response.status
        → r.1.payments.db ≡ payments.db
        → InvoiceEnds Asked payments r
    issued :
        (page pubkey : Text) (amount : ℕ)
        → Asked page pubkey amount
        → Issued page pubkey amount payments r
        → InvoiceEnds Asked payments r

  abbrev pub Tested : Type 1
  Tested = Text → Text → ℕ → Type 0

  abbrev least : ℕ
  least = min_balance_of context.service.payments.settings

  pub refuse_lem :
      (Asked : Tested) (w : ControllerState D C) (status : ℕ) (message : Text)
      → 400 ≤ status
      → InvoiceEnds Asked w.payments (done (refuse status message), w)
  unfolding refuse
  refuse_lem Asked w status message h = refused (refuse status message) refl h refl

  issue_lem :
      (Asked : Tested) (page pubkey : Text) (amount : ℕ) (w : ControllerState D C)
      → Asked page pubkey amount
      → InvoiceEnds Asked w.payments (issue context page pubkey amount w)
  unfolding issue create_admission_invoice answer
  issue_lem Asked page pubkey amount w asked =
      let encoded = to_bech32 context.bech32 (text "npub") pubkey in
      elim (Outcome-cases encoded) [
        | inr (t, e) ↦
            refused (answer context page pubkey amount (failed t)) (rw e refl) (omega arith)
              (rw e refl)
        | inl (npub, e) ↦
            let r =
              create_invoice context.service pubkey (pos amount) (description_for context npub)
                w.payments in
            elim (Outcome-cases r.0) [
              | inl (invoice, c) ↦ issued page pubkey amount asked (record {
                npub = npub;
                invoice = invoice;
                is_encoded = e;
                is_created = c;
                state = rw e refl;
                is_answered = rw (e, c) refl;
              })
              | inr (t, c) ↦
                  elim (create_invoice-Creation context.service pubkey (pos amount)
                    (description_for context npub) w.payments) [
                      | unchanged _ f same ↦
                          refused (answer context page pubkey amount (failed t)) (rw (e, c) refl)
                            (omega arith) (rw e same)
                      | created response start _ _ f _ ↦ absurd (ground (arith, c, f))
                    ]
            ]
      ]

  on_user_lem :
      (Asked : Tested) (page pubkey : Text) (fees : List FeeSchedule) (user : Option User)
      (w : ControllerState D C)
      → (¬ MayWrite least user → Asked page pubkey (admission_amount pubkey fees))
      → InvoiceEnds Asked w.payments (on_user context page pubkey fees user w)
  unfolding on_user
  on_user_lem Asked page pubkey fees user w asked =
      elim (Bool-cases (is_admitted_user least user)) [
        | inl y ↦ rw y (refuse_lem Asked w 400 (text "User is already admitted.") (omega arith))
        | inr n ↦ rw n (
            issue_lem Asked page pubkey (admission_amount pubkey fees) w
              (asked (λ may. ground (arith, (is_admitted_user_iff least user).1 may))))
      ]

  on_fees_lem :
      (Asked : Tested) (page pubkey : Text) (fees : List FeeSchedule) (w : ControllerState D C)
      → ((fee : FeeSchedule) (rest : List FeeSchedule) (user : Option User)
          → fees ≡ fee ∷ rest
          → context.users.find_by_pubkey pubkey w.payments.db ≡ done user
          → ¬ MayWrite least user
          → Asked page pubkey (admission_amount pubkey fees))
      → InvoiceEnds Asked w.payments (on_fees context page pubkey fees w)
  unfolding on_fees
  on_fees_lem Asked page pubkey [] w asked =
      refuse_lem Asked w 400 (text "No admission fee required") (omega arith)
  on_fees_lem Asked page pubkey (fee ∷ fees) w asked =
      elim (Outcome-cases (context.users.find_by_pubkey pubkey w.payments.db)) [
        | inr (t, e) ↦ rw e (threw t refl refl)
        | inl (user, e) ↦
            rw e (on_user_lem Asked page pubkey (fee ∷ fees) user w (asked fee fees user refl e))
      ]

  pub on_key_lem :
      (Asked : Tested) (page : Text) (key : NamedKey) (w : ControllerState D C)
      → ((pubkey : Text) (fees : List FeeSchedule) (fee : FeeSchedule) (rest : List FeeSchedule)
            (user : Option User)
          → key ≡ named pubkey
          → admission_fees pubkey context.service.payments.settings.payments ≡ done fees
          → fees ≡ fee ∷ rest
          → context.users.find_by_pubkey pubkey w.payments.db ≡ done user
          → ¬ MayWrite least user
          → Asked page pubkey (admission_amount pubkey fees))
      → InvoiceEnds Asked w.payments (on_key context page key w)
  unfolding on_key
  on_key_lem Asked page (unnamed message) w asked = refuse_lem Asked w 400 message (omega arith)
  on_key_lem Asked page (named pubkey) w asked =
      elim (Outcome-cases (admission_fees pubkey context.service.payments.settings.payments)) [
        | inr (t, e) ↦ rw e (threw t refl refl)
        | inl (fees, e) ↦ rw e (
            on_fees_lem Asked page pubkey fees w
              (λ fee rest user. asked pubkey fees fee rest user refl e))
      ]
