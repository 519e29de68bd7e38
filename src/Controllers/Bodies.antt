-- ===== src/Controllers/Bodies.antt =====
-- What src/utils/transform.ts reads of the invoices that payments processors send to the callbacks of
-- src/controllers/callbacks.
use nostream.Prelude.{ℕ, Option, none, some, [], ◌∷◌, if◌then◌else◌, get_or_default}
use nostream.Prelude.Int.{ℤ}
use nostream.Prelude.Text.{Text, text, ◌===◌, includes}
use nostream.Action.{Outcome, done, failed}
use nostream.Payments.{InvoiceUnit, sats, InvoiceStatus, pending, completed, expired}

-- A status of the enumeration, another value, or `undefined`.
pub data SentStatus : Type 0 where
  known : InvoiceStatus → SentStatus
  unknown : SentStatus
  absent : SentStatus

-- The fields that the callbacks read of an invoice that a processor sends.
pub record SentInvoice : Type 0 where
  pub id : Text
  pub pubkey : Text
  pub amount_requested : ℤ
  pub unit : InvoiceUnit
  pub status : SentStatus
  pub confirmed_at : Option ℕ

-- The fields of the bodies; an amount is what `BigInt` makes of it, and a date what `Date` does.
pub record ZebedeeBody : Type 0 where
  pub id : Text
  pub internal_id : Text
  pub amount : Outcome ℤ
  pub unit : InvoiceUnit
  pub status : SentStatus
  pub confirmed_at : Option ℕ

pub record NodelessBody : Type 0 where
  pub uuid : Text
  -- `metadata.requestId`, `metadata.unit`
  pub request_id : Text
  pub unit : InvoiceUnit
  pub amount : Outcome ℤ
  pub status : Text

-- `amount` where it is a number.
pub record OpenNodeBody : Type 0 where
  pub id : Text
  pub order_id : Text
  pub amount : Option (Outcome ℤ)
  pub price : Outcome ℤ
  pub status : Text

abbrev pub with_amount : Outcome ℤ → (ℤ → SentInvoice) → Outcome SentInvoice
with_amount (failed t) make = failed t
with_amount (done amount) make = done (make amount)

unfoldable pub from_zebedee_invoice : ZebedeeBody → Outcome SentInvoice
from_zebedee_invoice body = with_amount body.amount (λ amount. record {
  id = body.id;
  pubkey = body.internal_id;
  amount_requested = amount;
  unit = body.unit;
  status = body.status;
  confirmed_at = body.confirmed_at;
})

unfoldable pub nodeless_status : Text → SentStatus
nodeless_status s =
    if includes s
      (text "new" ∷ text "pending_confirmation" ∷ text "underpaid" ∷ text "in_flight" ∷ [])
    then known pending
    else if includes s (text "paid" ∷ text "overpaid" ∷ [])
    then known completed
    else if s === text "expired"
    then known expired
    else absent

-- `paidAt` is the time of the callback where the status is "paid".
unfoldable pub from_nodeless_invoice : ℕ → NodelessBody → Outcome SentInvoice
from_nodeless_invoice now body = with_amount body.amount (λ amount. record {
  id = body.uuid;
  pubkey = body.request_id;
  amount_requested = amount;
  unit = body.unit;
  status = nodeless_status body.status;
  confirmed_at = if body.status === text "paid" then some now else none;
})

unfoldable pub open_node_status : Text → SentStatus
open_node_status s =
    if includes s (text "expired" ∷ text "refunded" ∷ [])
    then known expired
    else if includes s (text "unpaid" ∷ text "processing" ∷ text "underpaid" ∷ [])
    then known pending
    else if s === text "paid"
    then known completed
    else absent

unfoldable pub from_open_node_invoice : ℕ → OpenNodeBody → Outcome SentInvoice
from_open_node_invoice now body = with_amount (get_or_default body.price body.amount) (λ amount.
    record {
      id = body.id;
      pubkey = body.order_id;
      amount_requested = amount;
      unit = sats;
      status = open_node_status body.status;
      confirmed_at = if body.status === text "paid" then some now else none;
    })
