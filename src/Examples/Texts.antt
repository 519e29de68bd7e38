-- ===== src/Examples/Texts.antt =====
-- The theorems on bytes, rows, proofs of work and runes, applied to values.
use nostream.Prelude.{
  Option, some, ℕ, true, ◌≡◌, ◌≢◌, ◌↔◌, ltb, refl, inl, inr, false, List, [], ◌∷◌, All, all_iff,
  not, arith,
}
use nostream.Prelude.Text.{Text, text}
use nostream.Bytes.{IsByte, IsHexText}
use nostream.Pow.{get_leading_zero_bits}
use nostream.Pow.Bits.{zeros, bits_of, get_leading_zero_bits-zeros}
use nostream.Repository.EventRows.{
  insert_row, upsert_row, to_nostr_event, bare, to_nostr_event-rows,
}
use nostream.Runes.{
  Alternative, Restriction, ok, thrown, out_of_fuel, encode_alternative, escape, join,
  has_punctuation, is_cond,
}
use nostream.Runes.Decode.{encode_restriction, encode_rune, rune_from, is_space}
use nostream.Action.{done}
use nostream.Runes.Test.{Numbers, RuneValue, textual, test_rune}
use nostream.Runes.Test.Passes.{SomePasses, test_rune_iff}
use nostream.Runes.Roundtrip.{IsValid}
use nostream.Runes.Whole.{HasNoSpace, rune_from-encode_rune}
use nostream.Runes.Total.{rune_from-ends}
use nostream.Examples.{note}

two_bytes : All IsByte (0 ∷ 27 ∷ [])
two_bytes = (omega arith, (omega arith, tt))

get_leading_zero_bits-zeros_example :
    get_leading_zero_bits (0 ∷ 27 ∷ []) ≡ zeros (bits_of (0 ∷ 27 ∷ []))
get_leading_zero_bits-zeros_example = get_leading_zero_bits-zeros (0 ∷ 27 ∷ []) two_bytes

-- Two bytes in hex that begin with a letter and end with a digit.
pairs-IsHexText : IsHexText (text "a0a0") × IsHexText (text "b1b1") × IsHexText (text "d3d3")
pairs-IsHexText = (
  (
    inr (omega arith, omega arith),
    inl (omega arith, omega arith),
    (inr (omega arith, omega arith), inl (omega arith, omega arith), tt),
  ),
  (
    inr (omega arith, omega arith),
    inl (omega arith, omega arith),
    (inr (omega arith, omega arith), inl (omega arith, omega arith), tt),
  ),
  (
    inr (omega arith, omega arith),
    inl (omega arith, omega arith),
    (inr (omega arith, omega arith), inl (omega arith, omega arith), tt),
  ),
)

to_nostr_event-rows_example :
    (to_nostr_event (insert_row note) ≡ bare note) × (to_nostr_event (upsert_row note) ≡ bare note)
to_nostr_event-rows_example =
    to_nostr_event-rows note
      (record { id = pairs-IsHexText.0; pubkey = pairs-IsHexText.1; sig = pairs-IsHexText.2 })

-- `method=list`
abbrev method : Alternative
method = record { field = text "method"; cond = b'='; value = text "li|st" }

method-IsValid : IsValid method
unfolding has_punctuation is_cond
method-IsValid = record { field = refl; cond = refl }

-- `method=li\|st|method=li\|st&method=li\|st`
abbrev rune : List Restriction
rune = (method ∷ method ∷ []) ∷ (method ∷ []) ∷ []

rune-HasNoSpace : HasNoSpace (encode_rune rune)
unfolding encode_rune encode_restriction encode_alternative escape join is_space
rune-HasNoSpace =
    (all_iff (λ c. is_space c ≡ false) (λ c. not (is_space c))
        (λ c. (λ h. ground arith, λ h. ground arith)) (encode_rune rune)).0
      refl

rune_from-encode_rune_example : rune_from (encode_rune rune) ≡ ok rune
rune_from-encode_rune_example =
    rune_from-encode_rune rune ((method-IsValid, (method-IsValid, tt)), ((method-IsValid, tt), tt))
      rune-HasNoSpace

rune_from-ends_example : rune_from (text "a=1|b") ≢ thrown out_of_fuel
rune_from-ends_example = rune_from-ends (text "a=1|b")

-- Every text reads as the number 7.
abbrev numbers : Numbers ℕ
numbers = record { parse_int = λ _. some 7; is_below = λ a b. ltb a b; show = λ n. [] }

-- Every field is there, with the value of `method`.
abbrev record_of_method : Text → Option RuneValue
record_of_method _ = some (textual (text "li|st"))

test_rune_iff_example :
    (test_rune numbers record_of_method rune ≡ done (true, []))
    ↔ All (SomePasses numbers record_of_method) rune
test_rune_iff_example = test_rune_iff numbers record_of_method rune
