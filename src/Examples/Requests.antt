-- ===== src/Examples/Requests.antt =====
-- The theorems on the controllers, applied to values.
use nostream.Prelude.{
  ℕ, ◌<◌, ◌≡◌, refl, ◌↔◌, ◌/◌, ◌%◌, true, false, none, some, List, [], ◌∷◌, arith, All,
}
use mathlib.Core.Path.{subst}
use nostream.Prelude.Int.{pos}
use nostream.Prelude.Text.{text, starts_with, includes, ◌===◌}
use nostream.Action.{done}
use nostream.Bytes.{IsByte, from_buffer, hex_digit}
use nostream.Bytes.Bech32.{Bech32Library, from_bech32}
use nostream.Settings.{FeeSchedule, Settings}
use nostream.Payments.{Invoice, msats, is_admission_paid}
use nostream.Controllers.{HttpRequest, form, ControllerContext, ControllerState}
use nostream.Controllers.Invoice.{
  named, named_key, is_hex_pubkey, is_fee_for, is_summed, admission_fees, admission_amount,
  post_invoice,
}
use nostream.Controllers.Key.{IsKeyText, named_key-IsKeyText}
use nostream.Controllers.Price.{admission_amount-is_admission_paid, admission_amount-sats_iff}
use nostream.Controllers.Issue.{InvoiceEnds}
use nostream.Controllers.Ends.{Asked, post_invoice-InvoiceEnds}
use nostream.Controllers.Check.{get_admission_check}
use nostream.Controllers.Admission.{CheckEnds, get_admission_check-CheckEnds}
use nostream.Examples.{settings, limiter}
use nostream.Examples.Workers.{service, invoice, payments_state}

-- Every text that starts with "npub" decodes to two words, which are the bytes 1 and 2.
abbrev bech32 : Bech32Library
bech32 = record {
  decode = λ _. done (text "npub", 1 ∷ 2 ∷ []);
  encode = λ prefix _. done prefix;
  from_words = λ _. done (1 ∷ 2 ∷ []);
  to_words = λ bytes. bytes;
}

abbrev controllers : ControllerContext (ℕ × ℕ) ℕ
controllers = record {
  service = service;
  users = record { find_by_pubkey = λ _ _. done none };
  limiter = limiter;
  bech32 = bech32;
  page = done (text "<b>{{amount}}</b>");
  to_iso_string = λ _. text "1970-01-01T00:00:04.000Z";
}

abbrev pub request : HttpRequest
request = record {
  headers = (text "x-real-ip", text "1.2.3.4, 5.6.7.8") ∷ [];
  remote_address = some (text "::1");
  body = form (record {
    tos_accepted = some (text "yes");
    fee_schedule = some (text "admission");
    pubkey = some (text "npub1qq");
  });
  pubkey = text "b1b1";
}

abbrev state : ControllerState (ℕ × ℕ) ℕ
state = record { payments = payments_state; cache = 0 }

post_invoice-InvoiceEnds_example :
    InvoiceEnds controllers
      (Asked controllers request state)
      payments_state
      (post_invoice controllers request state)
post_invoice-InvoiceEnds_example = post_invoice-InvoiceEnds controllers request state

get_admission_check-CheckEnds_example :
    CheckEnds controllers request state (get_admission_check controllers request state).0
    × ((get_admission_check controllers request state).1.payments ≡ payments_state)
get_admission_check-CheckEnds_example = get_admission_check-CheckEnds controllers request state

two_bytes : (words bs : List ℕ) → bech32.from_words words ≡ done bs → All IsByte bs
two_bytes words bs h =
    let e : 1 ∷ 2 ∷ [] ≡ bs = ground (arith, h) in
    subst (All IsByte) e (omega arith, (omega arith, tt))

named_two_bytes : named_key bech32 (some (text "npub1qq")) ≡ named (text "0102")
unfolding named_key from_bech32 is_hex_pubkey starts_with from_buffer hex_digit
named_two_bytes = refl

named_key-IsKeyText_example : IsKeyText (text "0102")
named_key-IsKeyText_example =
    named_key-IsKeyText bech32 two_bytes (some (text "npub1qq")) (text "0102") named_two_bytes

abbrev pub fee : FeeSchedule
fee = record {
  enabled = true;
  amount = 1000;
  whitelist_pubkeys = some (text "c2" ∷ []);
  whitelist_event_kinds = none;
}

abbrev charging : Settings
charging = record settings {
  payments = some (record {
    enabled = true;
    processor = text "zebedee";
    admission = some (fee ∷ record fee { enabled = false } ∷ []);
  });
}

abbrev payable : Invoice
payable = record invoice { unit = msats }

fee_applies : admission_fees payable.pubkey charging.payments ≡ done (fee ∷ [])
unfolding admission_fees is_fee_for starts_with
fee_applies = refl

fee_is_positive : 0 < admission_amount payable.pubkey (fee ∷ [])
unfolding admission_amount is_summed includes ◌===◌
fee_is_positive = omega arith

admission_amount-is_admission_paid_example :
    is_admission_paid charging payable (pos (admission_amount payable.pubkey (fee ∷ []))) ≡ true
admission_amount-is_admission_paid_example =
    admission_amount-is_admission_paid charging payable (fee ∷ []) refl fee_applies fee_is_positive

admission_amount-sats_iff_example :
    (is_admission_paid charging invoice (pos (admission_amount invoice.pubkey (fee ∷ []) / 1000))
      ≡ true)
    ↔ (admission_amount invoice.pubkey (fee ∷ []) % 1000 ≡ 0)
admission_amount-sats_iff_example =
    admission_amount-sats_iff charging invoice (fee ∷ []) refl fee_applies fee_is_positive
