-- ===== src/Repository/Invoices.antt =====
-- src/repositories/invoice-repository.ts on the table `invoices`, with fromDBInvoice of
-- src/utils/transform.ts.
use nostream.Prelude.{
  zero, suc, ℕ, ◌+◌, ◌-◌, ◌≡◌, refl, inl, inr, Option, none, some, List, [], ◌∷◌, ◌==◌, arith,
  if◌then◌else◌, Bool-cases, take, filter, map,
}
use nostream.Prelude.Int.{ℤ, pos, negsuc}
use nostream.Prelude.Text.{Text, ◌===◌}
use nostream.Prelude.Decimal.{first_code, first_code-decimal, read_digits, read_digits-decimal}
use nostream.Bytes.{to_buffer, from_buffer, IsHexText}
use nostream.Bytes.Laws.{from_buffer-to_buffer}
use nostream.Payments.Service.{integer_text}
use nostream.Repository.Keyed.{find_row, put_row, written, find_row-put_row}
use nostream.Payments.{is_same_status, Invoice, InvoiceUnit, InvoiceStatus, pending}

-- `DBInvoice`; a column of the type bigint holds a number, which the client gives as text.
pub record DbInvoice : Type 0 where
  pub id : Text
  pub pubkey : List ℕ
  pub bolt11 : Text
  pub amount_requested : Text
  pub amount_paid : Option Text
  pub unit : InvoiceUnit
  pub status : InvoiceStatus
  pub description : Text
  pub confirmed_at : Option ℕ
  pub expires_at : Option ℕ
  pub updated_at : ℕ
  pub created_at : ℕ
  pub verify_url : Option Text

abbrev rest_of : Text → Text
rest_of [] = []
rest_of (c ∷ s) = s

-- `BigInt(text)`, for the text of an integer
unfoldable pub to_big_int : Text → ℤ
to_big_int s =
    if first_code s == 45 then negsuc (read_digits 0 (rest_of s) - 1) else pos (read_digits 0 s)

unfoldable pub from_db_invoice : DbInvoice → Invoice
from_db_invoice row = record {
  id = row.id;
  pubkey = from_buffer row.pubkey;
  bolt11 = row.bolt11;
  amount_requested = to_big_int row.amount_requested;
  amount_paid = elim row.amount_paid [ none ↦ none | some amount ↦ some (to_big_int amount) ];
  unit = row.unit;
  status = row.status;
  description = row.description;
  confirmed_at = row.confirmed_at;
  expires_at = row.expires_at;
  updated_at = row.updated_at;
  created_at = row.created_at;
  verify_url = row.verify_url;
}

abbrev invoice_of : Option DbInvoice → Option Invoice
invoice_of none = none
invoice_of (some row) = some (from_db_invoice row)

abbrev id_of_row : DbInvoice → Text
id_of_row row = row.id

unfoldable pub find_by_id : Text → List DbInvoice → Option Invoice
find_by_id id rows = invoice_of (find_row id_of_row id rows)

abbrev rows_after : ℕ → List DbInvoice → List DbInvoice
rows_after zero rows = rows
rows_after (suc n) [] = []
rows_after (suc n) (_ ∷ rows) = rows_after n rows

unfoldable pub find_pending_invoices : ℕ → ℕ → List DbInvoice → List Invoice
find_pending_invoices offset limit rows =
    map from_db_invoice
      (take limit (rows_after offset (filter (λ row. is_same_status row.status pending) rows)))

-- The row of an insertion; the columns that are not named are null.
unfoldable pub inserted_invoice : ℕ → Invoice → DbInvoice
inserted_invoice now invoice = record {
  id = invoice.id;
  pubkey = to_buffer invoice.pubkey;
  bolt11 = invoice.bolt11;
  amount_requested = integer_text invoice.amount_requested;
  amount_paid = none;
  unit = invoice.unit;
  status = invoice.status;
  description = invoice.description;
  confirmed_at = none;
  expires_at = invoice.expires_at;
  updated_at = now;
  created_at = invoice.created_at;
  verify_url = invoice.verify_url;
}

-- The columns that `omit` leaves.
unfoldable pub merged_invoice : ℕ → Invoice → DbInvoice → DbInvoice
merged_invoice now invoice row = record row { status = invoice.status; updated_at = now }

unfoldable pub upsert_invoice : ℕ → Invoice → List DbInvoice → List DbInvoice
upsert_invoice now invoice =
    put_row id_of_row invoice.id (inserted_invoice now invoice) (merged_invoice now invoice)

unfoldable pub write_invoice_status : ℕ → Text → InvoiceStatus → List DbInvoice → List DbInvoice
write_invoice_status now id status [] = []
write_invoice_status now id status (row ∷ rows) =
    let rest = write_invoice_status now id status rows in
    if row.id === id then record row { status = status; updated_at = now } ∷ rest else row ∷ rest

-- What is updated is returned, the first row of it.
unfoldable pub update_status :
    ℕ → Text → InvoiceStatus → List DbInvoice → Option Invoice × List DbInvoice
update_status now id status rows =
    let rows' = write_invoice_status now id status rows in (find_by_id id rows', rows')

to_big_int-integer_text : (a : ℤ) → to_big_int (integer_text a) ≡ a
unfolding to_big_int
to_big_int-integer_text (pos n) = rw (first_code-decimal n, read_digits-decimal n) refl
to_big_int-integer_text (negsuc n) =
    let e : n + 1 - 1 ≡ n = omega arith in rw (read_digits-decimal (n + 1), e) refl

-- The invoice that is found after an insertion or an update, of the one that was found before.
abbrev pub updated_invoice : ℕ → Invoice → Option Invoice → Invoice
updated_invoice now invoice none = record invoice {
  amount_paid = none;
  confirmed_at = none;
  updated_at = now;
}
updated_invoice now invoice (some old) = record old { status = invoice.status; updated_at = now }

invoice_of-written :
    (now : ℕ) (invoice : Invoice) (o : Option DbInvoice)
    → IsHexText invoice.pubkey
    → invoice_of
        (some (written id_of_row (inserted_invoice now invoice) (merged_invoice now invoice) o))
      ≡ some (updated_invoice now invoice (invoice_of o))
unfolding inserted_invoice merged_invoice from_db_invoice
invoice_of-written now invoice none h =
    rw (from_buffer-to_buffer invoice.pubkey h, to_big_int-integer_text invoice.amount_requested)
      refl
invoice_of-written now invoice (some row) h = refl

-- After an invoice has been inserted or updated, what is found for an id is what was found before,
-- unless it is the id of that invoice. Then it is the invoice itself, not paid and not confirmed,
-- where there was none with that id, and otherwise the one from before with the new status. The
-- public key has to be lower-case hex text of whole bytes.
pub find_by_id-upsert_invoice :
    (now : ℕ) (invoice : Invoice) (id : Text) (rows : List DbInvoice)
    → IsHexText invoice.pubkey
    → find_by_id id (upsert_invoice now invoice rows) ≡ (
        if id === invoice.id
        then some (updated_invoice now invoice (find_by_id invoice.id rows))
        else find_by_id id rows)
unfolding find_by_id upsert_invoice
find_by_id-upsert_invoice now invoice id rows h =
    let found =
      find_row-put_row id_of_row invoice.id (inserted_invoice now invoice)
        (merged_invoice now invoice) id rows (unfold inserted_invoice in refl)
        (λ row. unfold merged_invoice in refl) in
    rw found (elim (Bool-cases (id === invoice.id)) [
      | inl y ↦ rw y (invoice_of-written now invoice (find_row id_of_row invoice.id rows) h)
      | inr n ↦ rw n refl
    ])
