-- ===== src/Controllers/Lnbits.antt =====
-- `handleRequest` of src/controllers/callbacks/lnbits-callback-controller.ts, and src/utils/secret.ts.
use nostream.Prelude.{
  ℕ, Bool, true, false, not, ◌&&◌, Option, none, some, List, [], ◌∷◌, ◌==◌, ltb, leb, if◌then◌else◌,
  length, all, is_some, get_or_default,
}
use nostream.Prelude.Text.{Text, text, ◌===◌}
use nostream.Prelude.Decimal.{read_digits}
use nostream.Action.{Action, Outcome, done, failed, error, pure, ◌>>=◌, ◌>>◌}
use nostream.Bytes.{from_buffer}
use nostream.Settings.{Settings, chain}
use nostream.Payments.{is_same_status, Invoice, completed, PaymentsState, confirm_invoice}
use nostream.Payments.Service.{ServiceContext, update_invoice, send_invoice_update_notification}
use nostream.Controllers.{HttpRequest, HttpResponse, sent, plain_text, refuse, get_remote_address}
use nostream.Controllers.Invoice.{is_hex}

-- `string | Buffer`
pub data HmacData : Type 0 where
  string : Text → HmacData
  buffer : List ℕ → HmacData

-- The query's `hmac` and the body's `payment_hash`, where they are strings.
pub record LnbitsRequest : Type 0 where
  pub request : HttpRequest
  pub hmac : Option Text
  pub payment_hash : Option Text

-- `secret` is the variable SECRET of the environment; the others are the processor's and the
-- repository's, and the time.
pub record LnbitsContext (D : Type 0) : Type 0 where
  pub service : ServiceContext D
  pub secret : Option Text
  pub hmac_sha256 : HmacData → HmacData → List ℕ
  pub get_invoice : Text → Outcome Invoice
  pub find_by_id : Text → D → Outcome (Option Invoice)

-- The text before the first colon and the text after it.
unfoldable pub split_at_colon : Text → Option (Text × Text)
split_at_colon [] = none
split_at_colon (c ∷ s) =
    let rest = split_at_colon s in
    if c == b':' then some ([], s) else elim rest [ none ↦ none | some (a, b) ↦ some (c ∷ a, b) ]

abbrev is_digit : ℕ → Bool
is_digit c = leb 48 c && leb c 57

-- `/^[0-9]{1,20}:[0-9a-f]{64}$/`, of the two parts
unfoldable pub is_hmac : Text → Text → Bool
is_hmac time digest =
    leb 1 (length time)
    && (leb (length time) 20 && (all is_digit time && (length digest == 64 && all is_hex digest)))

-- `deriveFromSecret`; an empty variable is like none.
unfoldable pub derive_from_secret :
    (HmacData → HmacData → List ℕ) → Option Text → Text → Outcome (List ℕ)
derive_from_secret hmac_sha256 none purpose =
    failed (error (text "SECRET environment variable not set"))
derive_from_secret hmac_sha256 (some []) purpose =
    failed (error (text "SECRET environment variable not set"))
derive_from_secret hmac_sha256 (some (c ∷ s)) purpose =
    done (hmac_sha256 (string (c ∷ s)) (string purpose))

unfoldable pub is_payment_hash : Text → Bool
is_payment_hash hash = length hash == 64

-- `invoice.status !== InvoiceStatus.COMPLETED && !invoice.confirmedAt`
unfoldable pub is_unpaid : Invoice → Bool
is_unpaid invoice =
    not (is_same_status invoice.status completed) && not (is_some invoice.confirmed_at)

abbrev pub forbidden : HttpResponse
forbidden = record { status = 403; content_type = none; body = sent (text "Forbidden") }

abbrev pub empty_answer : HttpResponse
empty_answer = record { status = 200; content_type = none; body = sent [] }

abbrev pub ok_answer : HttpResponse
ok_answer = record { status = 200; content_type = some plain_text; body = sent (text "OK") }

module _ {D : Type 0} (context : LnbitsContext D) where
  abbrev result : {A : Type 0} → Outcome A → Action (PaymentsState D) A
  result o w = (o, w)

  abbrev pub lnbits_key : Text
  lnbits_key = text "lnbits-callback-hmac-key"

  abbrev is_signed : Text → Text → Outcome (List ℕ) → Outcome Bool
  is_signed time digest (failed t) = failed t
  is_signed time digest (done key) = done (
      from_buffer (context.hmac_sha256 (buffer key) (string time)) === digest
      && ltb context.service.payments.now (read_digits 0 time))

  abbrev pub parts_valid : Option (Text × Text) → Outcome Bool
  parts_valid none = done false
  parts_valid (some (time, digest)) =
      if is_hmac time digest
      then is_signed time digest (derive_from_secret context.hmac_sha256 context.secret lnbits_key)
      else done false

  -- `validationPassed`
  unfoldable pub is_validated : Option Text → Outcome Bool
  is_validated none = done false
  is_validated (some hmac) = parts_valid (split_at_colon hmac)

  abbrev pub paid : Invoice → Invoice
  paid invoice = record invoice { amount_paid = some invoice.amount_requested }

  unfoldable pub confirm_paid : Invoice → Action (PaymentsState D) HttpResponse
  confirm_paid invoice = do
    confirm_invoice context.service.payments invoice
    send_invoice_update_notification context.service invoice
    pure ok_answer

  unfoldable pub after_update : Invoice → Invoice → Action (PaymentsState D) HttpResponse
  after_update stored invoice =
      if is_unpaid invoice
      then pure empty_answer
      else if is_same_status stored.status completed
      then pure (refuse 409 (text "Invoice is already marked paid"))
      else confirm_paid (paid invoice)

  unfoldable pub on_stored : Invoice → Option Invoice → Action (PaymentsState D) HttpResponse
  on_stored invoice none = pure (refuse 404 (text "No such invoice"))
  on_stored invoice (some stored) =
      update_invoice context.service invoice.id invoice.status >> after_update stored invoice

  unfoldable pub on_payment_hash : Text → Action (PaymentsState D) HttpResponse
  on_payment_hash hash w =
      (result (context.get_invoice hash) >>= λ invoice.
      (λ w. (context.find_by_id hash w.db, w)) >>= on_stored invoice)
        w

  unfoldable pub on_validated : Option Text → Bool → Action (PaymentsState D) HttpResponse
  on_validated payment_hash false = pure forbidden
  on_validated none true = pure (refuse 400 (text "Malformed body"))
  on_validated (some hash) true =
      if is_payment_hash hash
      then on_payment_hash hash
      else pure (refuse 400 (text "Malformed body"))

  -- `settings.payments?.processor ?? 'null'`
  abbrev processor_of : Settings → Text
  processor_of settings =
      get_or_default (text "null") (chain (λ p. some p.processor) settings.payments)

  unfoldable pub is_lnbits : Bool
  is_lnbits = processor_of context.service.payments.settings === text "lnbits"

  unfoldable pub lnbits_callback : LnbitsRequest → Action (PaymentsState D) HttpResponse
  lnbits_callback r =
      result (get_remote_address r.request context.service.payments.settings) >>= λ address.
      if is_lnbits
      then result (is_validated r.hmac) >>= on_validated r.payment_hash
      else pure forbidden
