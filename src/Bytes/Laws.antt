-- ===== src/Bytes/Laws.antt =====
-- Hex text and byte buffers convert into one another without loss.
use nostream.Prelude.{
  ℕ, ◌+◌, ◌-◌, ◌*◌, ◌/◌, ◌%◌, ◌<◌, ◌≡◌, refl, inl, inr, some, List, [], ◌∷◌, arith, All, length,
  Bool-cases, ltb,
}
use nostream.Prelude.Text.{Text}
use nostream.Bytes.{to_buffer, from_buffer, hex_value, hex_digit, IsByte, IsHex, IsHexText}

pub to_buffer_pair :
    (a b : ℕ) (s : Text) (m n : ℕ)
    → hex_value a ≡ some m
    → hex_value b ≡ some n
    → to_buffer (a ∷ b ∷ s) ≡ (m * 16 + n) ∷ to_buffer s
unfolding to_buffer
to_buffer_pair a b s m n p q = ground arith

hex_value-hex_digit : (n : ℕ) → n < 16 → hex_value (hex_digit n) ≡ some n
unfolding hex_value hex_digit
hex_value-hex_digit n h = ground arith

-- Every buffer is read back from its hex text.
pub to_buffer-from_buffer : (bs : List ℕ) → All IsByte bs → to_buffer (from_buffer bs) ≡ bs
unfolding from_buffer
to_buffer-from_buffer [] h = unfold to_buffer in refl
to_buffer-from_buffer (b ∷ bs) (h, hs) = cc (
  to_buffer_pair (hex_digit (b / 16)) (hex_digit (b % 16)) (from_buffer bs) (b / 16) (b % 16)
      (hex_value-hex_digit (b / 16) (omega arith)) (hex_value-hex_digit (b % 16) (omega arith)),
  to_buffer-from_buffer bs hs,
  let e : b / 16 * 16 + b % 16 ≡ b = omega arith in e,
)

pub digit_of_hex :
    (c : ℕ) → IsHex c → (n : ℕ) × (hex_value c ≡ some n) × (hex_digit n ≡ c) × (n < 16)
unfolding hex_value hex_digit
digit_of_hex c (inl h) = (c - 48, ground arith, ground arith, omega arith)
digit_of_hex c (inr h) = (c - 87, ground arith, ground arith, omega arith)

-- Every lower-case hex text of even length is printed back from the buffer that it is read into.
pub from_buffer-to_buffer : (s : Text) → IsHexText s → from_buffer (to_buffer s) ≡ s
unfolding from_buffer
from_buffer-to_buffer [] h = unfold to_buffer in refl
from_buffer-to_buffer (a ∷ []) h = absurd h
from_buffer-to_buffer (a ∷ b ∷ s) (ha, hb, hs) =
    let (m, m_value, m_digit, _) = digit_of_hex a ha in
    let (n, n_value, n_digit, n_small) = digit_of_hex b hb in
    rw (to_buffer_pair a b s m n m_value n_value) (
      cc (
        m_digit,
        n_digit,
        from_buffer-to_buffer s hs,
        let e : (m * 16 + n) / 16 ≡ m = omega arith in e,
        let e : (m * 16 + n) % 16 ≡ n = omega arith in e,
      ))

pub IsHexText-of_even : (s : Text) → All IsHex s → length s % 2 ≡ 0 → IsHexText s
IsHexText-of_even [] h e = tt
IsHexText-of_even (a ∷ []) h e = absurd (omega arith)
IsHexText-of_even (a ∷ b ∷ s) (ha, (hb, hs)) e = (ha, hb, IsHexText-of_even s hs (omega arith))

hex_digit-IsHex : (n : ℕ) → n < 16 → IsHex (hex_digit n)
unfolding hex_digit
hex_digit-IsHex n h = elim (Bool-cases (ltb n 10)) [
  | inl y ↦ rw y (inl (ground arith, ground arith))
  | inr m ↦ rw m (inr (ground arith, ground arith))
]

-- Bytes are printed as lower-case hex text, two digits each.
pub from_buffer-IsHexText : (bs : List ℕ) → All IsByte bs → IsHexText (from_buffer bs)
unfolding from_buffer
from_buffer-IsHexText [] h = tt
from_buffer-IsHexText (b ∷ bs) (h, hs) = (
  hex_digit-IsHex (b / 16) (omega arith),
  hex_digit-IsHex (b % 16) (omega arith),
  from_buffer-IsHexText bs hs,
)

pub length-from_buffer : (bs : List ℕ) → length (from_buffer bs) ≡ 2 * length bs
unfolding from_buffer
length-from_buffer [] = refl
length-from_buffer (b ∷ bs) = omega (arith, length-from_buffer bs)
