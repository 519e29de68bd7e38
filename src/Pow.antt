-- ===== src/Pow.antt =====
-- src/utils/proof-of-work.ts, over buffers of bytes, and its two uses in src/utils/event.ts.
pub mod Bits
use nostream.Prelude.{ℕ, zero, suc, ◌+◌, ◌-◌, ◌/◌, List, [], ◌∷◌, ◌==◌, if◌then◌else◌}
use nostream.Prelude.Text.{Text}
use nostream.Bytes.{to_buffer}

-- `while (b >>= 1) n++`; a shift of a number below 2 ^ 31 halves it, and a halving that is not 0
-- leaves less, so that `b` rounds are enough.
halvings : ℕ → ℕ → ℕ → ℕ
halvings zero b n = n
halvings (suc fuel) b n = let more = halvings fuel (b / 2) (n + 1) in if b / 2 == 0 then n else more

-- The number of leading zero bits of a byte.
msb : ℕ → ℕ
unfolding halvings
msb b = if b == 0 then 8 else 7 - halvings b b 0

-- The loop of `getLeadingZeroBits`, from the byte that it has come to.
leading_from : ℕ → List ℕ → ℕ
leading_from total [] = total
leading_from total (b ∷ hash) =
    let bits = msb b in
    let rest = leading_from (total + bits) hash in if bits == 8 then rest else total + bits

unfoldable pub get_leading_zero_bits : List ℕ → ℕ
unfolding leading_from msb
get_leading_zero_bits hash = leading_from 0 hash

unfoldable pub get_event_proof_of_work : Text → ℕ
get_event_proof_of_work event_id = get_leading_zero_bits (to_buffer event_id)

unfoldable pub get_pubkey_proof_of_work : Text → ℕ
get_pubkey_proof_of_work pubkey = get_leading_zero_bits (to_buffer pubkey)
