-- ===== src/Controllers/Zebedee.antt =====
-- What src/controllers/callbacks/zebedee-callback-controller.ts writes, and for which requests.
use nostream.Prelude.{
  ◌||◌, not, ◌≡◌, refl, ◌⊎◌, inl, inr, true, false, none, some, List, [], ◌∷◌, Any, arith,
  Bool-cases, Option-cases, ltb, length,
}
use nostream.Prelude.Int.{ℤ}
use nostream.Prelude.Text.{Text, text, includes, includes_iff}
use nostream.Action.{Outcome, done}
use nostream.Strategies.Effects.{Outcome-cases}
use nostream.Payments.{msats, PaymentsState}
use nostream.Controllers.{HttpRequest, HttpResponse, get_remote_address}
use nostream.Controllers.Lnbits.{ok_answer}
use nostream.Controllers.Signed.{HasProcessor}
use nostream.Controllers.Acknowledged.{is_acknowledged}
use nostream.Controllers.Bodies.{ZebedeeBody, from_zebedee_invoice}
use nostream.Controllers.Processors.{
  ProcessorContext, zebedee_confirmation, zebedee_allows, take_invoice, zebedee_callback,
}
use nostream.Controllers.Settled.{
  Taken, take_invoice-Taken, is_processor_lem, is_processor_complete, unread_lem, with_amount_lem,
}

module _ {D : Type 0} (context : ProcessorContext D) where
  -- The address is on the whitelist, if there is one that is not empty.
  abbrev pub Allowed : Text → Type 0
  Allowed address =
      (context.zebedee_ip_whitelist ≡ none)
      ⊎ ((list : List Text) × (context.zebedee_ip_whitelist ≡ some list)
          × ((list ≡ []) ⊎ Any (λ a. a ≡ address) list))

  listed_lem :
      (address : Text) (list : List Text)
      → (not (ltb 0 (length list)) || includes address list) ≡ true
      → (list ≡ []) ⊎ Any (λ a. a ≡ address) list
  listed_lem address [] h = inl refl
  listed_lem address (a ∷ list) h = inr ((includes_iff address (a ∷ list)).0 (ground arith))

  listed_complete :
      (address : Text) (list : List Text)
      → (list ≡ []) ⊎ Any (λ a. a ≡ address) list
      → (not (ltb 0 (length list)) || includes address list) ≡ true
  listed_complete address list (inl e) = rw e refl
  listed_complete address list (inr found) =
      let h = (includes_iff address list).1 found in ground arith

  zebedee_allows_lem :
      (address : Text)
      → zebedee_allows context address ≡ true
      → Allowed address × HasProcessor context.service.payments.settings (text "zebedee")
  zebedee_allows_lem address h = elim (Option-cases context.zebedee_ip_whitelist) [
    | inl n ↦ (inl n, is_processor_lem context (text "zebedee") (rw n at h))
    | inr (list, e) ↦
        let g = rw e at h in
        (
          inr (list, e, listed_lem address list (ground (arith, g))),
          is_processor_lem context (text "zebedee") (ground (arith, g)),
        )
  ]

  zebedee_allows_complete :
      (address : Text)
      → Allowed address
      → HasProcessor context.service.payments.settings (text "zebedee")
      → zebedee_allows context address ≡ true
  zebedee_allows_complete address (inl n) has =
      rw n (is_processor_complete context (text "zebedee") has)
  zebedee_allows_complete address (inr (list, e, listed)) has =
      let p = is_processor_complete context (text "zebedee") has in
      let l = listed_complete address list listed in rw (e, l) p

  -- Zebedee is the payments processor, the address of the request is allowed, and the body's amount is
  -- read.
  pub record ZebedeeAccepted (request : HttpRequest) (body : ZebedeeBody) (amount : ℤ)
      : Type 0 where
    pub address : Text
    pub is_address : get_remote_address request context.service.payments.settings ≡ done address
    pub allowed : Allowed address
    pub processor : HasProcessor context.service.payments.settings (text "zebedee")
    pub is_read : body.amount ≡ done amount

  pub data ZebedeeEnds (request : HttpRequest) (body : ZebedeeBody) (w : PaymentsState D)
      (r : Outcome HttpResponse × PaymentsState D) : Type 0 where
    untouched :
        ((amount : ℤ) → ¬ ZebedeeAccepted request body amount)
        → is_acknowledged r.0 ≡ false
        → r.1 ≡ w
        → ZebedeeEnds request body w r
    taken :
        (amount : ℤ)
        → ZebedeeAccepted request body amount
        → Taken context body.id body.status amount
            (λ updated. record updated {
              id = body.id;
              pubkey = body.internal_id;
              unit = msats;
              confirmed_at = body.confirmed_at;
              amount_paid = some amount;
            })
            ok_answer
            w
            r
        → ZebedeeEnds request body w r

  -- A callback of Zebedee that Zebedee, as the payments processor, sends from an address on its
  -- whitelist, if there is one that is not empty, with an amount that can be read, ends in one of two
  -- ways. The status that was sent is written, and the invoice that this gives is confirmed, which
  -- writes what `confirmInvoice` commits, with the id, the public key and the date that were sent, and
  -- the amount that was sent as the amount paid, in millisatoshi; its payer is notified of that
  -- amount, as far as the calls for that do not throw; and the answer is OK. Or no more is written
  -- than the status, and the answer is no text with the status 200: then writing the status gives no
  -- invoice, or one that is neither completed nor dated, or the confirmation throws. Of any other
  -- request nothing is changed, and the answer is no such text either.
  pub zebedee_callback-ZebedeeEnds :
      (request : HttpRequest) (body : ZebedeeBody) (w : PaymentsState D)
      → ZebedeeEnds request body w (zebedee_callback context request body w)
  unfolding zebedee_callback take_invoice zebedee_confirmation from_zebedee_invoice
  zebedee_callback-ZebedeeEnds request body w =
      elim (Outcome-cases (get_remote_address request context.service.payments.settings)) [
        | inr (t, a) ↦
            rw a (untouched (λ n ok. absurd (ground (arith, a, ok.is_address))) refl refl)
        | inl (address, a) ↦ elim (Bool-cases (zebedee_allows context address)) [
          | inr n ↦
              rw (a, n)
                (untouched
                  (λ amount ok.
                    let same : ok.address ≡ address = ground (arith, a, ok.is_address) in
                    let all = zebedee_allows_complete ok.address ok.allowed ok.processor in
                    absurd (ground (arith, n, rw same at all)))
                  refl refl)
          | inl y ↦ elim (Outcome-cases (from_zebedee_invoice body)) [
            | inr (t, b) ↦
                rw (a, y, b)
                  (untouched (λ n ok. unread_lem body.amount _ t n b ok.is_read) refl refl)
            | inl (invoice, b) ↦
                let (amount, read, e) = with_amount_lem body.amount _ invoice b in
                let (allowed, processor) = zebedee_allows_lem address y in
                rw (a, y, b)
                  (taken amount
                    (record {
                      address = address;
                      is_address = a;
                      allowed = allowed;
                      processor = processor;
                      is_read = read;
                    })
                    (rw e (take_invoice-Taken context zebedee_confirmation ok_answer _ w)))
          ]
        ]
      ]
