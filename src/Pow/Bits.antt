-- ===== src/Pow/Bits.antt =====
-- The proof of work of a buffer, read off its bits.
use nostream.Prelude.{
  ℕ, zero, suc, ◌+◌, ◌/◌, ◌%◌, ◌^◌, ◌≤◌, ◌<◌, ◌≡◌, refl, Bool, true, false, List, [], ◌∷◌, ◌++◌,
  arith, ◌==◌, ==_iff, Bool-cases, inl, inr, if◌then◌else◌, All, length,
}
use nostream.Bytes.{IsByte}
use nostream.Pow.{msb, leading_from, get_leading_zero_bits}

abbrev bit : ℕ → ℕ → Bool
bit b k = b / 2 ^ k % 2 == 1

-- The bits of a byte, the highest first.
abbrev bits_of_byte : ℕ → List Bool
bits_of_byte b = bit b 7 ∷ bit b 6 ∷ bit b 5 ∷ bit b 4 ∷ bit b 3 ∷ bit b 2 ∷ bit b 1 ∷ bit b 0 ∷ []

-- The bits of a buffer, as one sequence.
abbrev pub bits_of : List ℕ → List Bool
bits_of [] = []
bits_of (b ∷ bs) = bits_of_byte b ++ bits_of bs

-- How many bits stand before the first 1.
abbrev pub zeros : List Bool → ℕ
zeros [] = 0
zeros (true ∷ bs) = 0
zeros (false ∷ bs) = suc (zeros bs)

-- Every byte below `bound` has as many leading zero bits as `msb` says.
msb_agrees : ℕ → Bool
msb_agrees zero = true
msb_agrees (suc bound) =
    let smaller = msb_agrees bound in
    if zeros (bits_of_byte bound) == msb bound then smaller else false

msb_agrees_lem :
    (b bound : ℕ) → b < bound → msb_agrees bound ≡ true → msb b ≡ zeros (bits_of_byte b)
unfolding msb_agrees
msb_agrees_lem b zero h e = absurd (omega arith)
msb_agrees_lem b (suc bound) h e = elim (Bool-cases (b == bound)) [
  | inl last ↦ rw ((==_iff b bound).0 last) (ground arith)
  | inr earlier ↦ msb_agrees_lem b bound (ground arith) (ground arith)
]

msb_agrees_256 : msb_agrees 256 ≡ true
unfolding msb_agrees msb
msb_agrees_256 = refl

msb-zeros : (b : ℕ) → b < 256 → msb b ≡ zeros (bits_of_byte b)
msb-zeros b h = msb_agrees_lem b 256 h msb_agrees_256

zeros-le-length : (bs : List Bool) → zeros bs ≤ length bs
zeros-le-length [] = omega arith
zeros-le-length (true ∷ bs) = omega arith
zeros-le-length (false ∷ bs) = omega (arith, zeros-le-length bs)

zeros-append :
    (xs ys : List Bool)
    → zeros (xs ++ ys) ≡ (if zeros xs == length xs then zeros xs + zeros ys else zeros xs)
zeros-append [] ys = omega arith
zeros-append (true ∷ xs) ys = ground arith
zeros-append (false ∷ xs) ys = ground (arith, zeros-append xs ys)

leading_from_lem :
    (total : ℕ) (hash : List ℕ)
    → All IsByte hash
    → leading_from total hash ≡ total + zeros (bits_of hash)
unfolding leading_from
leading_from_lem total [] h = omega arith
leading_from_lem total (b ∷ hash) (h, hs) = ground (
  arith,
  msb-zeros b h,
  zeros-append (bits_of_byte b) (bits_of hash),
  leading_from_lem (total + msb b) hash hs,
)

-- The proof of work of a buffer of bytes is the number of 0 bits before its first 1 bit, the bits
-- of each byte taken from the highest to the lowest.
pub get_leading_zero_bits-zeros :
    (hash : List ℕ) → All IsByte hash → get_leading_zero_bits hash ≡ zeros (bits_of hash)
unfolding get_leading_zero_bits
get_leading_zero_bits-zeros hash h = omega (arith, leading_from_lem 0 hash h)
