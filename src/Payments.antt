-- ===== src/Payments.antt =====
-- `confirmInvoice` of src/services/payments-service.ts and the transaction of
-- src/database/transaction.ts.
pub mod Atomic
pub mod Service
pub mod Tables
use nostream.Prelude.{
  ℕ, suc, ◌+◌, ◌-◌, ◌*◌, Bool, true, false, not, ◌&&◌, Option, none, some, List, [], ◌∷◌, ◌++◌, ltb,
  if◌then◌else◌, any, get_or_default,
}
use nostream.Prelude.Int.{ℤ, pos, negsuc, ltb_ℤ}
use nostream.Prelude.Text.{Text, text, starts_with}
use nostream.Action.{Action, Outcome, done, failed, Thrown, error, pure, throw, catch, ◌>>=◌, ◌>>◌}
use nostream.Event.{Event}
use nostream.Settings.{Settings, FeeSchedule, chain}
use nostream.EventHandler.Admission.{some_of}

pub data InvoiceUnit : Type 0 where
  msats : InvoiceUnit
  sats : InvoiceUnit
  btc : InvoiceUnit

pub data InvoiceStatus : Type 0 where
  pending : InvoiceStatus
  completed : InvoiceStatus
  expired : InvoiceStatus

abbrev pub is_same_status : InvoiceStatus → InvoiceStatus → Bool
is_same_status pending pending = true
is_same_status completed completed = true
is_same_status expired expired = true
is_same_status _ _ = false

-- `Invoice` of src/@types/invoice.ts. A date is its time in milliseconds; null is `none`.
pub record Invoice : Type 0 where
  pub id : Text
  pub pubkey : Text
  pub bolt11 : Text
  pub amount_requested : ℤ
  pub amount_paid : Option ℤ
  pub unit : InvoiceUnit
  pub status : InvoiceStatus
  pub description : Text
  pub confirmed_at : Option ℕ
  pub expires_at : Option ℕ
  pub updated_at : ℕ
  pub created_at : ℕ
  pub verify_url : Option Text

-- What the service is given over a database of type `D`: how a transaction begins and commits, the
-- two repositories within a transaction, and the time.
pub record PaymentsContext (D : Type 0) : Type 0 where
  pub settings : Settings
  pub now : ℕ
  pub begin : D → Outcome D
  pub commit : D → Outcome D
  pub confirm_invoice_in_db : Text → ℤ → ℕ → D → Outcome (Unit {0}) × D
  -- `upsert` of the user as admitted, with the two dates.
  pub upsert_admitted : Text → ℕ → D → Outcome ℕ × D

-- `trx` is the transaction's view of the database, once it has begun. `announced` are the events
-- that were sent to the primary process to be broadcast, the last one last.
pub record PaymentsState (D : Type 0) : Type 0 where
  pub db : D
  pub trx : Option D
  pub announced : List Event

abbrev pub not_started : Thrown
not_started = error (text "Unable to get transaction: transaction not started.")

-- `a * k`, for k above 0.
abbrev scale : ℤ → ℕ → ℤ
scale (pos n) k = pos (n * k)
scale (negsuc n) k = negsuc ((n + 1) * k - 1)

unfoldable pub paid_msat : InvoiceUnit → ℤ → ℤ
paid_msat msats amount = amount
paid_msat sats amount = scale amount 1000
paid_msat btc amount = scale amount 100000000000

unfoldable pub is_applicable_admission_fee : Invoice → FeeSchedule → Bool
is_applicable_admission_fee invoice fee =
    fee.enabled && not (some_of (starts_with invoice.pubkey) fee.whitelist_pubkeys)

unfoldable pub fee_sum : Invoice → List FeeSchedule → ℕ
fee_sum invoice [] = 0
fee_sum invoice (fee ∷ fees) =
    let rest = fee_sum invoice fees in
    if is_applicable_admission_fee invoice fee then fee.amount + rest else rest

unfoldable pub is_admission_paid : Settings → Invoice → ℤ → Bool
is_admission_paid settings invoice amount =
    let fee = fee_sum invoice (get_or_default [] (chain (λ p. p.admission) settings.payments)) in
    ltb 0 fee && not (ltb_ℤ (paid_msat invoice.unit amount) fee)

abbrev pub status_text : InvoiceStatus → Text
status_text pending = text "pending"
status_text completed = text "completed"
status_text expired = text "expired"

abbrev check_amount : Option ℤ → ℕ → Outcome (ℤ × ℕ)
check_amount none date = failed (error (text "Invoice paid amount is not set: undefined"))
check_amount (some amount) date = done (amount, date)

abbrev check_status : InvoiceStatus → Option ℤ → ℕ → Outcome (ℤ × ℕ)
check_status completed amount date = check_amount amount date
check_status status amount date =
    failed (error (text "Invoice is not complete: " ++ status_text status))

-- The three tests; what they leave is the amount paid and the date.
unfoldable pub check_invoice : Invoice → Outcome (ℤ × ℕ)
check_invoice invoice = elim invoice.confirmed_at [
  | none ↦ failed (error (text "Invoice confirmation date is not set"))
  | some date ↦ check_status invoice.status invoice.amount_paid date
]

module _ {D : Type 0} (context : PaymentsContext D) where
  abbrev begun : Outcome D → Action (PaymentsState D) (Unit {0})
  begun (failed t) w = (failed t, w)
  begun (done db) w = (done tt, record w { trx = some db })

  unfoldable pub begin_transaction : Action (PaymentsState D) (Unit {0})
  begin_transaction w = begun (context.begin w.db) w

  -- An action of a repository on the transaction.
  unfoldable pub in_transaction : {A : Type 0} → Action D A → Action (PaymentsState D) A
  in_transaction m w = elim w.trx [
    | none ↦ (failed not_started, w)
    | some db ↦ ((m db).0, record w { trx = some (m db).1 })
  ]

  abbrev committed : Outcome D → Action (PaymentsState D) (Unit {0})
  committed (failed t) w = (failed t, w)
  committed (done db) w = (done tt, record w { db = db })

  unfoldable pub commit_transaction : Action (PaymentsState D) (Unit {0})
  commit_transaction w = elim w.trx [
    | none ↦ (failed not_started, w)
    | some db ↦ committed (context.commit db) w
  ]

  unfoldable pub rollback_transaction : Action (PaymentsState D) (Unit {0})
  rollback_transaction w = elim w.trx [ none ↦ (failed not_started, w) | some db ↦ (done tt, w) ]

  unfoldable pub admit_payer : Invoice → Bool → Action (PaymentsState D) (Unit {0})
  admit_payer invoice false = pure tt
  admit_payer invoice true = do
    count ← in_transaction (context.upsert_admitted invoice.pubkey context.now)
    pure tt

  unfoldable pub confirm_checked : Invoice → ℤ × ℕ → Action (PaymentsState D) (Unit {0})
  confirm_checked invoice (amount, date) = do
    begin_transaction
    in_transaction (context.confirm_invoice_in_db invoice.id amount date)
    admit_payer invoice (is_admission_paid context.settings invoice amount)
    commit_transaction

  -- A new transaction has not begun.
  unfoldable pub confirm_invoice : Invoice → Action (PaymentsState D) (Unit {0})
  confirm_invoice invoice w =
      catch ((λ w. (check_invoice invoice, w)) >>= confirm_checked invoice)
        (λ t. rollback_transaction >> throw t) (record w { trx = none })
