-- ===== src/Payments/Tables.antt =====
-- The payments service of src/services/payments-service.ts on the repositories of users and invoices,
-- as src/factories/payments-service-factory.ts puts them together.
use nostream.Prelude.{
  ℕ, ◌≡◌, refl, ap, sym, ◌∙◌, inl, inr, Bool, true, false, Option, none, some, List, [], arith,
  Bool-cases,
}
use nostream.Prelude.Int.{ℤ}
use nostream.Prelude.Text.{Text, ◌===◌, ===_iff}
use nostream.Action.{Outcome, done, failed}
use nostream.Bytes.{to_buffer}
use nostream.Repository.{User}
use nostream.Repository.Users.{
  DbUser, UserUpdate, find_by_pubkey, upsert_user, updated_user, find_by_pubkey-upsert_user,
}
use nostream.Repository.Invoices.{DbInvoice, upsert_invoice, update_status, find_pending_invoices}
use nostream.Payments.{Invoice, PaymentsState, confirm_invoice, is_admission_paid}
use nostream.Payments.Atomic.{confirmed, confirm_invoice-Confirmation}
use nostream.Payments.Atomic
use nostream.Payments.Service.{ServiceContext, create_invoice}
use nostream.Payments.Service.Creation.{unchanged, created, create_invoice-Creation}

pub record Tables : Type 0 where
  pub users : List DbUser
  pub invoices : List DbInvoice

-- The service on the tables, which no one else uses meanwhile: a transaction that commits writes
-- what it has written.
unfoldable pub on_tables : ServiceContext Tables → ServiceContext Tables
on_tables context =
    let now = context.payments.now in
    record context {
      payments = record context.payments {
        begin = λ db. done db;
        commit = λ db. done db;
        upsert_admitted = λ pubkey date db. (
          done 1,
          record db {
            users =
                upsert_user now
                  (record { pubkey = pubkey; is_admitted = some true; tos_accepted_at = some date })
                  db.users;
          },
        );
      };
      upsert_user = λ pubkey db. (
        done 1,
        record db {
          users =
              upsert_user now
                (record { pubkey = pubkey; is_admitted = none; tos_accepted_at = none }) db.users;
        },
      );
      upsert_invoice =
          λ invoice db. (done 1, record db { invoices = upsert_invoice now invoice db.invoices });
      update_status = λ id status db.
          let r = update_status now id status db.invoices in
          (done r.0, record db { invoices = r.1 });
      find_pending_invoices =
          λ offset limit db. done (find_pending_invoices offset limit db.invoices);
    }

abbrev admitted_of : Option User → Bool
admitted_of none = false
admitted_of (some user) = user.is_admitted

-- Whether a user is found that is admitted.
abbrev pub is_admitted_in : Text → Tables → Bool
is_admitted_in pubkey db = admitted_of (find_by_pubkey pubkey db.users)

abbrev named_user : Text → UserUpdate
named_user pubkey = record { pubkey = pubkey; is_admitted = none; tos_accepted_at = none }

admitted_of-updated :
    (pubkey : Text) (o : Option User)
    → admitted_of (some (updated_user (named_user pubkey) o)) ≡ admitted_of o
admitted_of-updated pubkey none = refl
admitted_of-updated pubkey (some user) = refl

find_by_pubkey-bytes :
    (p q : Text) (users : List DbUser)
    → to_buffer p ≡ to_buffer q
    → find_by_pubkey p users ≡ find_by_pubkey q users
unfolding find_by_pubkey
find_by_pubkey-bytes p q users e = rw e refl

upsert_user-admitted :
    (now : ℕ) (pubkey p : Text) (users : List DbUser)
    → admitted_of (find_by_pubkey p (upsert_user now (named_user pubkey) users))
      ≡ admitted_of (find_by_pubkey p users)
upsert_user-admitted now pubkey p users =
    rw (find_by_pubkey-upsert_user now (named_user pubkey) p users)
      (elim (Bool-cases (to_buffer p === to_buffer pubkey)) [
        | inr n ↦ rw n refl
        | inl y ↦
            let same =
              find_by_pubkey-bytes p pubkey users
                ((===_iff (to_buffer p) (to_buffer pubkey)).0 y) in
            rw y
              (admitted_of-updated pubkey (find_by_pubkey pubkey users) ∙ ap admitted_of (sym same))
      ])

abbrev users_of : Outcome Tables → List DbUser
users_of (failed t) = []
users_of (done db) = db.users

-- Creating an invoice, on the tables of users and invoices, admits nobody and takes nobody's
-- admission: for every public key, an admitted user is found after it exactly when one is found
-- before, whether the invoice is created or something is thrown.
pub create_invoice-admitted :
    (context : ServiceContext Tables) (pubkey : Text) (amount : ℤ) (description p : Text)
    (w : PaymentsState Tables)
    → is_admitted_in p (create_invoice (on_tables context) pubkey amount description w).1.db
      ≡ is_admitted_in p w.db
unfolding on_tables
create_invoice-admitted context pubkey amount description p w =
    elim (create_invoice-Creation (on_tables context) pubkey amount description w) [
      | unchanged t f same ↦ ap (is_admitted_in p) same
      | created response start _ b _ stored ↦
          let e : w.db ≡ start = cc b in
          let u = ap users_of stored.invoice.1 in
          ap (λ users. admitted_of (find_by_pubkey p users)) (sym u)
          ∙ upsert_user-admitted context.payments.now pubkey p start.users
          ∙ ap (is_admitted_in p) (sym e)
    ]

abbrev admitted_user : Text → ℕ → UserUpdate
admitted_user pubkey date = record {
  pubkey = pubkey;
  is_admitted = some true;
  tos_accepted_at = some date;
}

admitted_of-admitted :
    (pubkey : Text) (date : ℕ) (o : Option User)
    → admitted_of (some (updated_user (admitted_user pubkey date) o)) ≡ true
admitted_of-admitted pubkey date none = refl
admitted_of-admitted pubkey date (some user) = refl

upsert_user-admits :
    (now : ℕ) (pubkey : Text) (date : ℕ) (users : List DbUser)
    → admitted_of (find_by_pubkey pubkey (upsert_user now (admitted_user pubkey date) users)) ≡ true
upsert_user-admits now pubkey date users =
    let same = (===_iff (to_buffer pubkey) (to_buffer pubkey)).1 refl in
    rw (find_by_pubkey-upsert_user now (admitted_user pubkey date) pubkey users, same)
      (admitted_of-admitted pubkey date (find_by_pubkey pubkey users))

-- On the tables of users and invoices, an invoice that has been confirmed, and whose amount paid
-- reaches the fee for admission, leaves its payer admitted.
pub confirm_invoice-admitted :
    (context : ServiceContext Tables) (invoice : Invoice) (amount : ℤ) (w : PaymentsState Tables)
    → (confirm_invoice (on_tables context).payments invoice w).0 ≡ done tt
    → invoice.amount_paid ≡ some amount
    → is_admission_paid context.payments.settings invoice amount ≡ true
    → is_admitted_in invoice.pubkey (confirm_invoice (on_tables context).payments invoice w).1.db
      ≡ true
unfolding on_tables
confirm_invoice-admitted context invoice amount w ends given pays =
    elim (confirm_invoice-Confirmation (on_tables context).payments invoice w) [
      | Atomic.unchanged t f _ ↦ absurd (ground (arith, ends, f))
      | confirmed other _ start _ p _ _ _ written ↦
          let same : other ≡ amount = cc (p, given) in
          elim written.admission [
            | inl (n, _) ↦ absurd (ground (arith, rw same at n, pays))
            | inr (_, _, c) ↦
                ap (λ users. admitted_of (find_by_pubkey invoice.pubkey users))
                  (sym (ap users_of c))
                ∙ upsert_user-admits context.payments.now invoice.pubkey context.payments.now
                    (context.payments.confirm_invoice_in_db invoice.id other _ start).1.users
          ]
    ]
