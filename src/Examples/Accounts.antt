-- ===== src/Examples/Accounts.antt =====
-- The theorems on the rows of users and invoices, applied to values.
use nostream.Prelude.{refl, false, ◌≡◌, true, none, some, [], ◌∷◌, if◌then◌else◌, inl, inr, arith}
use nostream.Prelude.Int.{pos}
use nostream.Prelude.Text.{text, ◌===◌}
use nostream.Bytes.{to_buffer}
use nostream.Repository.Users.{
  DbUser, UserUpdate, find_by_pubkey, upsert_user, updated_user, find_by_pubkey-upsert_user,
}
use nostream.Repository.Invoices.{
  DbInvoice, find_by_id, upsert_invoice, updated_invoice, find_by_id-upsert_invoice,
}
use nostream.Payments.{sats, pending}
use nostream.Action.{done}
use nostream.Payments.{
  PaymentsState, confirm_invoice, is_admission_paid, paid_msat, is_applicable_admission_fee,
  fee_sum, check_invoice, confirm_checked, admit_payer, begin_transaction, in_transaction,
  commit_transaction,
}
use nostream.Payments.Service.{ServiceContext, create_invoice}
use nostream.Payments.Tables.{
  Tables, on_tables, is_admitted_in, create_invoice-admitted, confirm_invoice-admitted,
}
use nostream.Examples.Workers.{invoice, service, payments}

abbrev user_row : DbUser
user_row = record {
  pubkey = 177 ∷ 177 ∷ [];
  is_admitted = true;
  balance = pos 12;
  tos_accepted_at = none;
  created_at = 1000;
  updated_at = 1000;
}

abbrev update : UserUpdate
update = record { pubkey = text "b1b1"; is_admitted = none; tos_accepted_at = some 2000 }

find_by_pubkey-upsert_user_example :
    find_by_pubkey (text "b1b1") (upsert_user 2000 update (user_row ∷ [])) ≡ (
      if to_buffer (text "b1b1") === to_buffer update.pubkey
      then some (updated_user update (find_by_pubkey update.pubkey (user_row ∷ [])))
      else find_by_pubkey (text "b1b1") (user_row ∷ []))
find_by_pubkey-upsert_user_example =
    find_by_pubkey-upsert_user 2000 update (text "b1b1") (user_row ∷ [])

abbrev invoice_row : DbInvoice
invoice_row = record {
  id = text "i";
  pubkey = 177 ∷ 177 ∷ [];
  bolt11 = text "lnbc";
  amount_requested = text "1";
  amount_paid = none;
  unit = sats;
  status = pending;
  description = text "Admission";
  confirmed_at = none;
  expires_at = none;
  updated_at = 2000;
  created_at = 2000;
  verify_url = none;
}

find_by_id-upsert_invoice_example :
    find_by_id (text "i") (upsert_invoice 5000 invoice (invoice_row ∷ [])) ≡ (
      if text "i" === invoice.id
      then some (updated_invoice 5000 invoice (find_by_id invoice.id (invoice_row ∷ [])))
      else find_by_id (text "i") (invoice_row ∷ []))
find_by_id-upsert_invoice_example =
    find_by_id-upsert_invoice 5000 invoice (text "i") (invoice_row ∷ []) (
      inr (omega arith, omega arith),
      inl (omega arith, omega arith),
      (inr (omega arith, omega arith), inl (omega arith, omega arith), tt),
    )

-- The tables' service; what `on_tables` replaces is not asked.
abbrev on_rows : ServiceContext Tables
on_rows = record {
  payments = record {
    settings = payments.settings;
    now = 5000;
    begin = λ db. done db;
    commit = λ db. done db;
    confirm_invoice_in_db = λ _ _ _ db. (done tt, db);
    upsert_admitted = λ _ _ db. (done 1, db);
  };
  relay_pubkey = service.relay_pubkey;
  processor_create_invoice = service.processor_create_invoice;
  processor_get_invoice = service.processor_get_invoice;
  upsert_user = λ _ db. (done 1, db);
  upsert_invoice = λ _ db. (done 1, db);
  update_status = λ _ _ db. (done none, db);
  find_pending_invoices = λ _ _ _. done [];
  create_event = λ _ db. (done 1, db);
  identify = service.identify;
  sign = service.sign;
  send = service.send;
  month_later = service.month_later;
}

abbrev tables : PaymentsState Tables
tables = record {
  db = record { users = record user_row { is_admitted = false } ∷ []; invoices = invoice_row ∷ [] };
  trx = none;
  announced = [];
}

create_invoice-admitted_example :
    is_admitted_in
      (text "b1b1")
      (create_invoice (on_tables on_rows) (text "b1b1") (pos 1) (text "Admission") tables).1.db
    ≡ is_admitted_in (text "b1b1") tables.db
create_invoice-admitted_example =
    create_invoice-admitted on_rows (text "b1b1") (pos 1) (text "Admission") (text "b1b1") tables

confirmation_ends : (confirm_invoice (on_tables on_rows).payments invoice tables).0 ≡ done tt
unfolding on_tables confirm_invoice check_invoice confirm_checked admit_payer begin_transaction
    in_transaction commit_transaction is_admission_paid paid_msat fee_sum
    is_applicable_admission_fee
confirmation_ends = refl

confirmation_pays : is_admission_paid on_rows.payments.settings invoice (pos 1) ≡ true
unfolding is_admission_paid paid_msat fee_sum is_applicable_admission_fee
confirmation_pays = refl

confirm_invoice-admitted_example :
    is_admitted_in invoice.pubkey (confirm_invoice (on_tables on_rows).payments invoice tables).1.db
    ≡ true
confirm_invoice-admitted_example =
    confirm_invoice-admitted on_rows invoice (pos 1) tables confirmation_ends refl confirmation_pays
