-- ===== src/Controllers/Price.antt =====
-- The amount that src/controllers/invoices/post-invoice-controller.ts asks for is the fee that
-- `confirmInvoice` of src/services/payments-service.ts admits for.
use nostream.Prelude.{
  ℕ, ◌<◌, ◌≤◌, ◌*◌, ◌≡◌, refl, sym, ap, ◌∙◌, ◌↔◌, ◌/◌, ◌%◌, inl, inr, true, false, not, ◌&&◌, ltb,
  Option, none, some, List, [], ◌∷◌, arith, any, filter, get_or_default, Bool-cases,
}
use mathlib.Core.List.{append-nil}
use nostream.Prelude.Int.{pos}
use nostream.Prelude.Text.{Text, ◌===◌, ===_iff, includes, starts_with, starts_with_iff}
use nostream.Action.{done}
use nostream.Settings.{Settings, FeeSchedule, Payments, chain}
use nostream.EventHandler.{listed_in}
use nostream.EventHandler.Admission.{some_of}
use nostream.Payments.{
  Invoice, msats, sats, paid_msat, is_applicable_admission_fee, fee_sum, is_admission_paid,
}
use nostream.Controllers.Invoice.{
  is_fee_for, is_summed, some_fees, admission_fees, admission_amount,
}

-- A listed public key is a prefix of itself.
includes-starts_with :
    (pubkey : Text) (list : List Text)
    → any (starts_with pubkey) list ≡ false
    → includes pubkey list ≡ false
unfolding includes
includes-starts_with pubkey [] h = refl
includes-starts_with pubkey (p ∷ list) h =
    let rest = includes-starts_with pubkey list (ground arith) in
    elim (Bool-cases (p === pubkey)) [
      | inl same ↦
          let e = (===_iff p pubkey).0 same in
          absurd (ground (arith, (starts_with_iff pubkey p).1 ([], sym e ∙ sym (append-nil p))))
      | inr differs ↦ ground (arith, rest)
    ]

listed_in-some_of :
    (pubkey : Text) (list : Option (List Text))
    → some_of (starts_with pubkey) list ≡ false
    → listed_in list pubkey ≡ false
listed_in-some_of pubkey none h = refl
listed_in-some_of pubkey (some list) h = includes-starts_with pubkey list h

is_summed-fee :
    (pubkey : Text) (fee : FeeSchedule) → is_fee_for pubkey fee ≡ true → is_summed pubkey fee ≡ true
unfolding is_fee_for is_summed
is_summed-fee pubkey fee h =
    ground (arith, listed_in-some_of pubkey fee.whitelist_pubkeys (ground arith))

is_fee_for-payer :
    (invoice : Invoice) (fee : FeeSchedule)
    → is_fee_for invoice.pubkey fee ≡ is_applicable_admission_fee invoice fee
unfolding is_fee_for is_applicable_admission_fee
is_fee_for-payer invoice fee = refl

admission_amount-fees :
    (invoice : Invoice) (fees : List FeeSchedule)
    → admission_amount invoice.pubkey (filter (is_fee_for invoice.pubkey) fees)
      ≡ fee_sum invoice fees
unfolding admission_amount fee_sum
admission_amount-fees invoice [] = refl
admission_amount-fees invoice (fee ∷ fees) =
    let same = is_fee_for-payer invoice fee in
    elim (Bool-cases (is_fee_for invoice.pubkey fee)) [
      | inl y ↦
          rw
            (
              y,
              sym same ∙ y,
              is_summed-fee invoice.pubkey fee y,
              admission_amount-fees invoice fees,
            )
            refl
      | inr n ↦ rw (n, sym same ∙ n, admission_amount-fees invoice fees) refl
    ]

given-filter :
    (pubkey : Text) (o : Option (List FeeSchedule)) (fees : List FeeSchedule)
    → some_fees pubkey o ≡ done fees
    → fees ≡ filter (is_fee_for pubkey) (get_or_default [] o)
given-filter pubkey none fees h = absurd (ground arith)
given-filter pubkey (some list) fees h = cc h

admission_fees-filter :
    (pubkey : Text) (o : Option Payments) (fees : List FeeSchedule)
    → admission_fees pubkey o ≡ done fees
    → fees ≡ filter (is_fee_for pubkey) (get_or_default [] (chain (λ p. p.admission) o))
unfolding admission_fees
admission_fees-filter pubkey none fees h = cc h
admission_fees-filter pubkey (some payments) fees h = given-filter pubkey payments.admission fees h

admission_fees-fee_sum :
    (settings : Settings) (invoice : Invoice) (fees : List FeeSchedule)
    → admission_fees invoice.pubkey settings.payments ≡ done fees
    → admission_amount invoice.pubkey fees
      ≡ fee_sum invoice (get_or_default [] (chain (λ p. p.admission) settings.payments))
admission_fees-fee_sum settings invoice fees h =
    ap (admission_amount invoice.pubkey)
      (admission_fees-filter invoice.pubkey settings.payments fees h)
    ∙ admission_amount-fees invoice (get_or_default [] (chain (λ p. p.admission) settings.payments))

-- Where fees for admission are in the settings and one of a positive amount applies to a public
-- key, an invoice of that public key that is paid with the amount that the controller asks for, in
-- millisatoshi, pays for admission.
pub admission_amount-is_admission_paid :
    (settings : Settings) (invoice : Invoice) (fees : List FeeSchedule)
    → invoice.unit ≡ msats
    → admission_fees invoice.pubkey settings.payments ≡ done fees
    → 0 < admission_amount invoice.pubkey fees
    → is_admission_paid settings invoice (pos (admission_amount invoice.pubkey fees)) ≡ true
unfolding is_admission_paid paid_msat
admission_amount-is_admission_paid settings invoice fees u h p =
    let sum = admission_fees-fee_sum settings invoice fees h in rw u (ground (arith, sum))

rounded_iff : (n : ℕ) → 0 < n → ((ltb 0 n && not (ltb (n / 1000 * 1000) n)) ≡ true) ↔ (n % 1000 ≡ 0)
rounded_iff n p = (
  λ h. let e : n ≤ n / 1000 * 1000 = ground arith in omega (arith, e),
  λ e. let m : n ≤ n / 1000 * 1000 = omega arith in ground (arith, m, p),
)

-- An invoice in satoshi for the amount that the controller asks for, rounded down to whole satoshi
-- as the payments processors do, pays for admission exactly when the amount is a multiple of 1000
-- millisatoshi, where fees for admission are in the settings and one of a positive amount applies.
pub admission_amount-sats_iff :
    (settings : Settings) (invoice : Invoice) (fees : List FeeSchedule)
    → invoice.unit ≡ sats
    → admission_fees invoice.pubkey settings.payments ≡ done fees
    → 0 < admission_amount invoice.pubkey fees
    → (is_admission_paid settings invoice (pos (admission_amount invoice.pubkey fees / 1000))
        ≡ true)
      ↔ (admission_amount invoice.pubkey fees % 1000 ≡ 0)
unfolding is_admission_paid paid_msat
admission_amount-sats_iff settings invoice fees u h p =
    let sum = admission_fees-fee_sum settings invoice fees h in
    rw (sym sum, u) (rounded_iff (admission_amount invoice.pubkey fees) p)
