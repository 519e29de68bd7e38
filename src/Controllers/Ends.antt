-- ===== src/Controllers/Ends.antt =====
-- How `handleRequest` of src/controllers/invoices/post-invoice-controller.ts ends, for every request.
use nostream.Prelude.{
  ℕ, ◌≡◌, refl, ◌∙◌, ap, inl, inr, Bool, true, false, Option, some, List, ◌∷◌, arith, Bool-cases,
}
use mathlib.Core.Path.{subst}
use nostream.Prelude.Text.{Text, text, is_text, is_text_iff}
use nostream.Action.{Outcome, done, failed, continue, ◌>>=◌}
use nostream.Settings.{FeeSchedule, chain}
use nostream.EventHandler.Admission.{min_balance_of}
use nostream.EventHandler.Admission.Admitted.{MayWrite}
use nostream.Repository.{User}
use nostream.Controllers.{
  Form, RequestBody, no_object, form, HttpRequest, ControllerContext, ControllerState, rates_of,
}
use nostream.Controllers.Limits.{is_request_limited-payments}
use nostream.Controllers.Invoice.{
  named, named_key, admission_fees, admission_amount, on_body, on_invoice_limited,
  is_invoice_limited, post_invoice,
}
use nostream.Controllers.Issue.{InvoiceEnds, threw, refuse_lem, on_key_lem}

module _ {D C : Type 0} (context : ControllerContext D C) where
  -- What has been tested of a request in the state `w` before its invoice is created.
  pub record Asked (request : HttpRequest) (w : ControllerState D C) (page pubkey : Text)
      (amount : ℕ) : Type 0 where
    pub asked_with : Form
    pub user : Option User
    pub fee : FeeSchedule
    pub rest : List FeeSchedule
    pub read_page : context.page ≡ done page
    pub is_unlimited : (is_invoice_limited context request w).0 ≡ done false
    pub body : request.body ≡ form asked_with
    pub is_tos_accepted : asked_with.tos_accepted ≡ some (text "yes")
    pub is_for_admission : asked_with.fee_schedule ≡ some (text "admission")
    pub key : named_key context.bech32 asked_with.pubkey ≡ named pubkey
    pub fees : admission_fees pubkey context.service.payments.settings.payments ≡ done (fee ∷ rest)
    pub is_sum : amount ≡ admission_amount pubkey (fee ∷ rest)
    pub is_found : context.users.find_by_pubkey pubkey w.payments.db ≡ done user
    pub is_not_admitted : ¬ MayWrite (min_balance_of context.service.payments.settings) user

  is_invoice_limited-payments :
      (request : HttpRequest) (w : ControllerState D C)
      → (is_invoice_limited context request w).1.payments ≡ w.payments
  unfolding is_invoice_limited
  is_invoice_limited-payments request w =
      is_request_limited-payments context (text ":invoice:")
        (rates_of (chain (λ l. l.invoice) context.service.payments.settings.limits)) request w

  on_body_lem :
      (request : HttpRequest) (w v : ControllerState D C) (page : Text) (body : RequestBody)
      → context.page ≡ done page
      → (is_invoice_limited context request w).0 ≡ done false
      → v.payments ≡ w.payments
      → request.body ≡ body
      → InvoiceEnds context (Asked request w) v.payments (on_body context page body v)
  unfolding on_body
  on_body_lem request w v page no_object p l same b =
      refuse_lem context (Asked request w) v 400 (text "Invalid request") (omega arith)
  on_body_lem request w v page (form f) p l same b =
      elim (Bool-cases (is_text f.tos_accepted (text "yes"))) [
        | inr n ↦ rw n (
            refuse_lem context (Asked request w) v 400 (text "ToS agreement: not accepted")
              (omega arith))
        | inl tos ↦ elim (Bool-cases (is_text f.fee_schedule (text "admission"))) [
          | inr n ↦
              rw (tos, n)
                (refuse_lem context (Asked request w) v 400 (text "Invalid fee") (omega arith))
          | inl schedule ↦
              rw (tos, schedule)
                (on_key_lem context (Asked request w) page (named_key context.bech32 f.pubkey) v
                  (λ pubkey fees fee rest user key known some_fee found may. record {
                    asked_with = f;
                    user = user;
                    fee = fee;
                    rest = rest;
                    read_page = p;
                    is_unlimited = l;
                    body = b;
                    is_tos_accepted = (is_text_iff f.tos_accepted (text "yes")).0 tos;
                    is_for_admission = (is_text_iff f.fee_schedule (text "admission")).0 schedule;
                    key = key;
                    fees = known ∙ ap done some_fee;
                    is_sum = ap (admission_amount pubkey) some_fee;
                    is_found = rw same at found;
                    is_not_admitted = may;
                  }))
        ]
      ]

  on_invoice_limited_lem :
      (request : HttpRequest) (w v : ControllerState D C) (page : Text) (limited : Outcome Bool)
      → context.page ≡ done page
      → (is_invoice_limited context request w).0 ≡ limited
      → v.payments ≡ w.payments
      → InvoiceEnds context
          (Asked request w)
          v.payments
          (continue limited (on_invoice_limited context page request.body) v)
  unfolding on_invoice_limited
  on_invoice_limited_lem request w v page (failed t) p l same = threw t refl refl
  on_invoice_limited_lem request w v page (done true) p l same =
      refuse_lem context (Asked request w) v 429 (text "Too many requests") (omega arith)
  on_invoice_limited_lem request w v page (done false) p l same =
      on_body_lem request w v page request.body p l same refl

  page_lem :
      (request : HttpRequest) (w : ControllerState D C) (page : Outcome Text)
      → context.page ≡ page
      → InvoiceEnds context (Asked request w) w.payments (
          continue page
            (λ page.
              is_invoice_limited context request >>= on_invoice_limited context page request.body)
            w)
  page_lem request w (failed t) p = threw t refl refl
  page_lem request w (done page) p =
      let l = is_invoice_limited context request w in
      let same = is_invoice_limited-payments request w in
      subst
        (λ u.
          InvoiceEnds context (Asked request w) u
            (continue l.0 (on_invoice_limited context page request.body) l.1))
        same (on_invoice_limited_lem request w l.1 page l.0 p refl same)

  -- A request for an invoice ends in one of three ways. It throws, and nothing has been written but
  -- the counts of the limits. Or the answer is a refusal, of a status of at least 400, and the
  -- database is as before. Or the page with the invoice is sent, and then the request was not
  -- limited, the form accepts the terms and asks for admission, its public key is one that is read,
  -- some fee for admission applies to that key, the user is not admitted with the balance that is
  -- asked for, and the invoice is the one that the service has created for that key with the sum of
  -- these fees as its amount, in the state that the service has left.
  pub post_invoice-InvoiceEnds :
      (request : HttpRequest) (w : ControllerState D C)
      → InvoiceEnds context (Asked request w) w.payments (post_invoice context request w)
  unfolding post_invoice
  post_invoice-InvoiceEnds request w = page_lem request w context.page refl
