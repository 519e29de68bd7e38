-- ===== src/Bytes.antt =====
-- Byte buffers and their hex text: `toBuffer` and `fromBuffer` of src/utils/transform.ts, which are
-- `Buffer.from(input, 'hex')` and `input.toString('hex')`. A byte is a number below 256.
pub mod Laws
pub mod Bech32
use nostream.Prelude.{
  ℕ, ◌+◌, ◌-◌, ◌*◌, ◌/◌, ◌%◌, ◌<◌, ◌≤◌, ◌⊎◌, Option, none, some, List, [], ◌∷◌, ◌&&◌, leb, ltb,
  if◌then◌else◌,
}
use nostream.Prelude.Text.{Text}

-- The value of one hex digit, in either case.
unfoldable pub hex_value : ℕ → Option ℕ
hex_value c =
    if leb b'0' c && leb c b'9'
    then some (c - 48)
    else if leb b'a' c && leb c b'f'
    then some (c - 87)
    else if leb b'A' c && leb c b'F'
    then some (c - 55)
    else none

abbrev byte_of : Option ℕ → Option ℕ → Option ℕ
byte_of (some h) (some l) = some (h * 16 + l)
byte_of _ _ = none

-- Node stops at the first pair that is no byte, and ignores an odd last digit.
unfoldable pub to_buffer : Text → List ℕ
to_buffer [] = []
to_buffer (a ∷ []) = []
to_buffer (a ∷ b ∷ s) =
    let rest = to_buffer s in
    elim (byte_of (hex_value a) (hex_value b)) [ none ↦ [] | some n ↦ n ∷ rest ]

unfoldable pub hex_digit : ℕ → ℕ
hex_digit n = if ltb n 10 then n + 48 else n + 87

unfoldable pub from_buffer : List ℕ → Text
from_buffer [] = []
from_buffer (b ∷ bs) = hex_digit (b / 16) ∷ hex_digit (b % 16) ∷ from_buffer bs

abbrev pub IsByte : ℕ → Type 0
IsByte b = b < 256

-- A lower-case hex digit: what the schemas of src/schemas/base-schema.ts let through.
abbrev pub IsHex : ℕ → Type 0
IsHex c = ((48 ≤ c) × (c ≤ 57)) ⊎ ((97 ≤ c) × (c ≤ 102))

-- Lower-case hex text of an even length.
abbrev pub IsHexText : Text → Type 0
IsHexText [] = Unit
IsHexText (a ∷ []) = ⊥
IsHexText (a ∷ b ∷ s) = IsHex a × IsHex b × IsHexText s
