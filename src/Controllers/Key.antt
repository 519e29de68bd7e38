-- ===== src/Controllers/Key.antt =====
-- The public keys that src/controllers/invoices/post-invoice-controller.ts takes from a form.
use nostream.Prelude.{
  ℕ, suc, zero, ◌≤◌, ◌≡◌, ◌↔◌, inl, inr, true, ◌&&◌, Option, none, some, List, [], ◌∷◌, arith,
  Bool-cases, All, all_iff, take, length, leb,
}
use mathlib.Core.Path.{subst}
use nostream.Prelude.Text.{Text, text, starts_with}
use nostream.Action.{done}
use nostream.Strategies.Effects.{Outcome-cases}
use nostream.Bytes.{from_buffer, IsByte, IsHex, IsHexText}
use nostream.Bytes.Laws.{IsHexText-of_even, from_buffer-IsHexText, length-from_buffer}
use nostream.Bytes.Bech32.{Bech32Library, from_bech32}
use nostream.Controllers.Invoice.{named, is_hex, is_hex_pubkey, named_key}

-- Lower-case hex text of at most 32 bytes.
pub record IsKeyText (s : Text) : Type 0 where
  pub hex : IsHexText s
  pub bound : length s ≤ 64

is_hex_iff : (c : ℕ) → (is_hex c ≡ true) ↔ IsHex c
is_hex_iff c = (
  λ h. elim (Bool-cases (leb 48 c && leb c 57)) [
    | inl d ↦ inl (ground arith, ground arith)
    | inr l ↦ inr (ground arith, ground arith)
  ],
  λ o. elim o [ inl (a, b) ↦ ground arith | inr (a, b) ↦ ground arith ],
)

is_hex_pubkey-IsKeyText : (raw : Text) → is_hex_pubkey raw ≡ true → IsKeyText raw
unfolding is_hex_pubkey
is_hex_pubkey-IsKeyText raw h =
    let e : length raw ≡ 64 = ground arith in
    let digits = (all_iff IsHex is_hex is_hex_iff raw).0 (ground arith) in
    record { hex = IsHexText-of_even raw digits (omega arith); bound = omega arith }

All-take : (n : ℕ) (xs : List ℕ) → All IsByte xs → All IsByte (take n xs)
All-take zero xs h = tt
All-take (suc n) [] h = tt
All-take (suc n) (x ∷ xs) (h, hs) = (h, All-take n xs hs)

length-take : (n : ℕ) (xs : List ℕ) → length (take n xs) ≤ n
length-take zero xs = omega arith
length-take (suc n) [] = omega arith
length-take (suc n) (x ∷ xs) = omega (arith, length-take n xs)

buffer-IsKeyText : (bs : List ℕ) → All IsByte bs → IsKeyText (from_buffer (take 32 bs))
buffer-IsKeyText bs h = record {
  hex = from_buffer-IsHexText (take 32 bs) (All-take 32 bs h);
  bound = omega (arith, length-from_buffer (take 32 bs), length-take 32 bs);
}

module _ (bech32 : Bech32Library)
    (bytes : (words bs : List ℕ) → bech32.from_words words ≡ done bs → All IsByte bs) where
  from_bech32-IsKeyText : (input s : Text) → from_bech32 bech32 input ≡ done s → IsKeyText s
  unfolding from_bech32
  from_bech32-IsKeyText input s h = elim (Outcome-cases (bech32.decode input)) [
    | inr (t, e) ↦ absurd (ground (arith, rw e at h))
    | inl ((prefix, words), e) ↦ elim (Bool-cases (starts_with input prefix)) [
      | inr n ↦ absurd (ground (arith, rw (e, n) at h))
      | inl y ↦ elim (Outcome-cases (bech32.from_words words)) [
        | inr (t, f) ↦ absurd (ground (arith, rw (e, y, f) at h))
        | inl (bs, f) ↦
            let same : from_buffer (take 32 bs) ≡ s = ground (arith, rw (e, y, f) at h) in
            subst IsKeyText same (buffer-IsKeyText bs (bytes words bs f))
      ]
    ]
  ]

  -- Where the library `bech32` turns words into bytes, a public key that the controller takes from a
  -- form is lower-case hex text of whole bytes, and of 32 bytes at most.
  pub named_key-IsKeyText :
      (raw : Option Text) (pubkey : Text) → named_key bech32 raw ≡ named pubkey → IsKeyText pubkey
  unfolding named_key
  named_key-IsKeyText none pubkey h = absurd (ground arith)
  named_key-IsKeyText (some raw) pubkey h = elim (Bool-cases (is_hex_pubkey raw)) [
    | inl y ↦ subst IsKeyText (ground (arith, rw y at h)) (is_hex_pubkey-IsKeyText raw y)
    | inr n ↦ elim (Bool-cases (starts_with raw (text "npub1"))) [
      | inr m ↦ absurd (ground (arith, rw (n, m) at h))
      | inl p ↦ elim (Outcome-cases (from_bech32 bech32 raw)) [
        | inr (t, f) ↦ absurd (ground (arith, rw (n, p, f) at h))
        | inl (s, f) ↦
            subst IsKeyText (ground (arith, rw (n, p, f) at h)) (from_bech32-IsKeyText raw s f)
      ]
    ]
  ]
