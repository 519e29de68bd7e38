-- ===== src/Controllers/Invoice.antt =====
-- `handleRequest` of src/controllers/invoices/post-invoice-controller.ts. Each early answer is the
-- branch of a step below, and the rest is the next step.
use nostream.Prelude.{
  ℕ, ◌+◌, ◌/◌, Bool, not, ◌&&◌, ◌||◌, Option, none, some, List, [], ◌∷◌, ◌++◌, ◌==◌, if◌then◌else◌,
  leb, length, all, filter, get_or_default,
}
use nostream.Prelude.Int.{pos}
use nostream.Prelude.Text.{Text, text, starts_with, is_text}
use nostream.Prelude.Decimal.{decimal}
use nostream.Action.{Action, Outcome, done, failed, other, pure, ◌>>=◌}
use nostream.Settings.{Settings, FeeSchedule, Payments, chain}
use nostream.EventHandler.{listed_in}
use nostream.EventHandler.Admission.{some_of, min_balance_of}
use nostream.Repository.{User}
use nostream.Payments.{Invoice, PaymentsState}
use nostream.Payments.Service.{create_invoice}
use nostream.Controllers.{
  RequestBody, no_object, form, HttpRequest, HttpResponse, sent, refuse, is_admitted_user,
  ControllerContext, ControllerState, rates_of, given, is_request_limited,
}
use nostream.Bytes.Bech32.{Bech32Library, from_bech32, to_bech32}
use nostream.Controllers.Page.{fill_page}

-- `[0-9a-f]`
abbrev pub is_hex : ℕ → Bool
is_hex c = (leb 48 c && leb c 57) || (leb 97 c && leb c 102)

-- `/^[0-9a-f]{64}$/.test(raw)`
unfoldable pub is_hex_pubkey : Text → Bool
is_hex_pubkey raw = length raw == 64 && all is_hex raw

-- The public key of a form, or the text of the refusal.
pub data NamedKey : Type 0 where
  named : Text → NamedKey
  unnamed : Text → NamedKey

abbrev decoded_key : Outcome Text → NamedKey
decoded_key (failed t) = unnamed (text "Invalid pubkey: invalid npub")
decoded_key (done pubkey) = named pubkey

unfoldable pub named_key : Bech32Library → Option Text → NamedKey
named_key bech32 none = unnamed (text "Invalid pubkey: missing")
named_key bech32 (some raw) =
    if is_hex_pubkey raw
    then named raw
    else if starts_with raw (text "npub1")
    then decoded_key (from_bech32 bech32 raw)
    else unnamed (text "Invalid pubkey: unknown format")

-- `isApplicableFee`
unfoldable pub is_fee_for : Text → FeeSchedule → Bool
is_fee_for pubkey fee = fee.enabled && not (some_of (starts_with pubkey) fee.whitelist_pubkeys)

-- Where payments are set but not their fees, reading `filter` throws.
abbrev pub some_fees : Text → Option (List FeeSchedule) → Outcome (List FeeSchedule)
some_fees pubkey none = failed other
some_fees pubkey (some fees) = done (filter (is_fee_for pubkey) fees)

unfoldable pub admission_fees : Text → Option Payments → Outcome (List FeeSchedule)
admission_fees pubkey none = done []
admission_fees pubkey (some payments) = some_fees pubkey payments.admission

unfoldable pub is_summed : Text → FeeSchedule → Bool
is_summed pubkey fee = fee.enabled && not (listed_in fee.whitelist_pubkeys pubkey)

unfoldable pub admission_amount : Text → List FeeSchedule → ℕ
admission_amount pubkey [] = 0
admission_amount pubkey (fee ∷ fees) =
    let rest = admission_amount pubkey fees in
    if is_summed pubkey fee then fee.amount + rest else rest

-- `settings.limits?.invoice`, and `settings.payments.processor`.
abbrev pub processor_name : Settings → Text
processor_name settings = get_or_default [] (chain (λ p. some p.processor) settings.payments)

module _ {D C : Type 0} (context : ControllerContext D C) where
  abbrev settings : Settings
  settings = context.service.payments.settings

  -- `replacements`
  unfoldable pub replacements : Text → ℕ → Invoice → List (Text × Text)
  replacements pubkey amount invoice =
      (text "name", settings.name)
      ∷ (text "reference", invoice.id)
      ∷ (text "relay_url", settings.relay_url)
      ∷ (text "pubkey", pubkey)
      ∷ (text "relay_pubkey", context.service.relay_pubkey)
      ∷ (
        text "expires_at",
        elim invoice.expires_at [ none ↦ [] | some date ↦ context.to_iso_string date ],
      )
      ∷ (text "invoice", invoice.bolt11)
      ∷ (text "amount", decimal (amount / 1000))
      ∷ (text "processor", processor_name settings)
      ∷ []

  unfoldable pub answer : Text → Text → ℕ → Outcome Invoice → HttpResponse
  answer page pubkey amount (failed t) = record {
    status = 500;
    content_type = some (text "text/plain");
    body = sent (text "Unable to create invoice");
  }
  answer page pubkey amount (done invoice) = record {
    status = 200;
    content_type = some (text "text/html; charset=utf8");
    body = sent (fill_page (replacements pubkey amount invoice) page);
  }

  unfoldable pub description_for : Text → Text
  description_for npub = settings.name ++ (text " Admission Fee for " ++ npub)

  -- The body of the `try`.
  unfoldable pub create_admission_invoice : Text → ℕ → Action (PaymentsState D) Invoice
  create_admission_invoice pubkey amount w =
      ((λ w. (to_bech32 context.bech32 (text "npub") pubkey, w)) >>= λ npub.
      create_invoice context.service pubkey (pos amount) (description_for npub))
        w

  unfoldable pub issue : Text → Text → ℕ → Action (ControllerState D C) HttpResponse
  issue page pubkey amount w =
      let created = create_admission_invoice pubkey amount w.payments in
      (done (answer page pubkey amount created.0), record w { payments = created.1 })

  unfoldable pub on_user :
      Text → Text → List FeeSchedule → Option User → Action (ControllerState D C) HttpResponse
  on_user page pubkey fees user =
      if is_admitted_user (min_balance_of settings) user
      then pure (refuse 400 (text "User is already admitted."))
      else issue page pubkey (admission_amount pubkey fees)

  unfoldable pub on_fees :
      Text → Text → List FeeSchedule → Action (ControllerState D C) HttpResponse
  on_fees page pubkey [] w = pure (refuse 400 (text "No admission fee required")) w
  on_fees page pubkey (fee ∷ fees) w =
      ((λ w. (context.users.find_by_pubkey pubkey w.payments.db, w))
          >>= on_user page pubkey (fee ∷ fees))
        w

  unfoldable pub on_key : Text → NamedKey → Action (ControllerState D C) HttpResponse
  on_key page (unnamed message) = pure (refuse 400 message)
  on_key page (named pubkey) =
      given context (admission_fees pubkey settings.payments) >>= on_fees page pubkey

  unfoldable pub on_body : Text → RequestBody → Action (ControllerState D C) HttpResponse
  on_body page no_object = pure (refuse 400 (text "Invalid request"))
  on_body page (form f) =
      if not (is_text f.tos_accepted (text "yes"))
      then pure (refuse 400 (text "ToS agreement: not accepted"))
      else if not (is_text f.fee_schedule (text "admission"))
      then pure (refuse 400 (text "Invalid fee"))
      else on_key page (named_key context.bech32 f.pubkey)

  unfoldable pub on_invoice_limited :
      Text → RequestBody → Bool → Action (ControllerState D C) HttpResponse
  on_invoice_limited page body limited =
      if limited then pure (refuse 429 (text "Too many requests")) else on_body page body

  -- `isRateLimited`
  unfoldable pub is_invoice_limited : HttpRequest → Action (ControllerState D C) Bool
  is_invoice_limited =
      is_request_limited context (text ":invoice:")
        (rates_of (chain (λ l. l.invoice) settings.limits))

  unfoldable pub post_invoice : HttpRequest → Action (ControllerState D C) HttpResponse
  post_invoice request = given context context.page >>= λ page.
      is_invoice_limited request >>= on_invoice_limited page request.body
