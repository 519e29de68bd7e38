-- ===== src/Repository/Query/Prefixes.antt =====
-- Comparing a column of bytes with a prefix, in the three ways of `findByFilters` in
-- src/repositories/event-repository.ts, is `startsWith` on the hex text of the column.
use nostream.Prelude.{
  ℕ, suc, ◌+◌, ◌*◌, ◌/◌, ◌%◌, ◌<◌, ◌≤◌, ◌≡◌, refl, ◌∙◌, inl, inr, Bool, true, ◌&&◌, ◌||◌, some,
  List, [], ◌∷◌, ◌++◌, arith, ltb, ◌==◌, length, take, All, Bool-cases,
}
use nostream.Prelude.Text.{Text, text, ◌===◌, starts_with}
use nostream.Bytes.{to_buffer, hex_value, IsHex, IsHexText}
use nostream.Bytes.Laws.{IsHexText-of_even, to_buffer_pair, digit_of_hex}
use nostream.Repository.Query.{LengthGroup, exact, even, odd, length_group, Postgres, leb_bytes}

-- Lower-case hex text of an odd length.
abbrev IsOddHexText : Text → Type 0
IsOddHexText [] = ⊥
IsOddHexText (a ∷ []) = IsHex a
IsOddHexText (a ∷ b ∷ s) = IsHex a × IsHex b × IsOddHexText s

IsOddHexText-of_odd : (s : Text) → All IsHex s → length s % 2 ≡ 1 → IsOddHexText s
IsOddHexText-of_odd [] h e = absurd (omega arith)
IsOddHexText-of_odd (a ∷ []) (h, _) e = h
IsOddHexText-of_odd (a ∷ b ∷ s) (ha, (hb, hs)) e = (ha, hb, IsOddHexText-of_odd s hs (omega arith))

IsHexText-append : (s : Text) (c : ℕ) → IsOddHexText s → IsHex c → IsHexText (s ++ c ∷ [])
IsHexText-append [] c h k = absurd h
IsHexText-append (a ∷ []) c h k = (h, k, tt)
IsHexText-append (a ∷ b ∷ s) c (ha, hb, hs) k = (ha, hb, IsHexText-append s c hs k)

-- The byte of two hex digits.
record Pair (a b : ℕ) : Type 0 where
  high : ℕ
  low : ℕ
  high_small : high < 16
  low_small : low < 16
  buffer : (s : Text) → to_buffer (a ∷ b ∷ s) ≡ (high * 16 + low) ∷ to_buffer s
  value_high : hex_value a ≡ some high
  value_low : hex_value b ≡ some low

Pair-of : (a b : ℕ) → IsHex a → IsHex b → Pair a b
Pair-of a b ha hb =
    let (m, p, _, m_small) = digit_of_hex a ha in
    let (n, q, _, n_small) = digit_of_hex b hb in
    record {
      high = m;
      low = n;
      high_small = m_small;
      low_small = n_small;
      buffer = λ s. to_buffer_pair a b s m n p q;
      value_high = p;
      value_low = q;
    }

hex_value_injective :
    (a b m n : ℕ)
    → IsHex a
    → IsHex b
    → hex_value a ≡ some m
    → hex_value b ≡ some n
    → (m == n) ≡ (a == b)
unfolding hex_value
hex_value_injective a b m n (inl ha) (inl hb) p q = ground arith
hex_value_injective a b m n (inl ha) (inr hb) p q = ground arith
hex_value_injective a b m n (inr ha) (inl hb) p q = ground arith
hex_value_injective a b m n (inr ha) (inr hb) p q = ground arith

byte_eq :
    (m n m' n' : ℕ) → n < 16 → n' < 16 → (m * 16 + n == m' * 16 + n') ≡ ((m == m') && (n == n'))
byte_eq m n m' n' h h' = ground arith

-- Two bytes are the same exactly where their digits are.
same_byte :
    {a b c d : ℕ} (x : Pair a b) (y : Pair c d)
    → IsHex a
    → IsHex b
    → IsHex c
    → IsHex d
    → (x.high * 16 + x.low == y.high * 16 + y.low) ≡ ((a == c) && (b == d))
same_byte {a} {b} {c} {d} x y ha hb hc hd =
    byte_eq x.high x.low y.high y.low x.low_small y.low_small
    ∙ rw
        (
          hex_value_injective a c x.high y.high ha hc x.value_high y.value_high,
          hex_value_injective b d x.low y.low hb hd x.value_low y.value_low,
        )
        refl

take_half : (a b : ℕ) (s : Text) → length (a ∷ b ∷ s) / 2 ≡ suc (length s / 2)
take_half a b s = omega arith

&&_assoc : (a b c : Bool) → ((a && b) && c) ≡ (a && (b && c))
&&_assoc a b c = ground arith

take_even :
    (s p : Text)
    → IsHexText s
    → IsHexText p
    → (take (length p / 2) (to_buffer s) === to_buffer p) ≡ starts_with s p
unfolding ◌===◌ starts_with
take_even s [] hs hp = unfold to_buffer in refl
take_even s (a ∷ []) hs hp = absurd hp
take_even [] (a ∷ b ∷ p) hs (ha, hb, hp) =
    rw (take_half a b p, (Pair-of a b ha hb).buffer p) (unfold to_buffer in refl)
take_even (c ∷ []) (a ∷ b ∷ p) hs hp = absurd hs
take_even (c ∷ d ∷ s) (a ∷ b ∷ p) (hc, hd, hs) (ha, hb, hp) =
    let x = Pair-of c d hc hd in
    let y = Pair-of a b ha hb in
    rw (take_half a b p, x.buffer s, y.buffer p)
      (rw (same_byte x y hc hd ha hb, take_even s p hs hp) (&&_assoc (c == a) (d == b) _))

-- Where the texts are as long as one another, no part is taken.
whole :
    (s p : Text)
    → IsHexText s
    → IsHexText p
    → length s ≡ length p
    → (to_buffer s === to_buffer p) ≡ starts_with s p
unfolding ◌===◌ starts_with
whole [] [] hs hp e = unfold to_buffer in refl
whole s (a ∷ []) hs hp e = absurd hp
whole (c ∷ []) p hs hp e = absurd hs
whole [] (a ∷ b ∷ p) hs hp e = absurd (omega arith)
whole (c ∷ d ∷ s) [] hs hp e = absurd (omega arith)
whole (c ∷ d ∷ s) (a ∷ b ∷ p) (hc, hd, hs) (ha, hb, hp) e =
    let x = Pair-of c d hc hd in
    let y = Pair-of a b ha hb in
    rw (x.buffer s, y.buffer p)
      (rw (same_byte x y hc hd ha hb, whole s p hs hp (omega arith)) (&&_assoc (c == a) (d == b) _))

-- Between the least and the greatest byte with a given first digit.
same_digit :
    (m n k : ℕ)
    → n < 16
    → ((ltb (k * 16 + 0) (m * 16 + n) || ((k * 16 + 0 == m * 16 + n) && true))
        && (ltb (m * 16 + n) (k * 16 + 15) || ((m * 16 + n == k * 16 + 15) && true)))
      ≡ (m == k)
same_digit m n k h = ground arith

-- Equal bytes leave the order to what follows.
same_head :
    (v w : ℕ) (a b : Bool)
    → ((ltb w v || ((w == v) && a)) && (ltb v w || ((v == w) && b))) ≡ ((v == w) && (a && b))
same_head v w a b = ground arith

hex_value-zero : hex_value 48 ≡ some 0
unfolding hex_value
hex_value-zero = refl

hex_value-last : hex_value 102 ≡ some 15
unfolding hex_value
hex_value-last = refl

to_buffer_nil : to_buffer [] ≡ []
unfolding to_buffer
to_buffer_nil = refl

and_true : (a : Bool) → a ≡ (a && true)
and_true a = ground arith

between :
    (s p : Text)
    → IsHexText s
    → IsOddHexText p
    → length p < length s
    → (leb_bytes (to_buffer (p ++ 48 ∷ [])) (take (length p / 2 + 1) (to_buffer s))
        && leb_bytes (take (length p / 2 + 1) (to_buffer s)) (to_buffer (p ++ 102 ∷ [])))
      ≡ starts_with s p
unfolding leb_bytes starts_with
between s [] hs hp l = absurd hp
between [] (a ∷ p) hs hp l = absurd (omega arith)
between (c ∷ []) (a ∷ p) hs hp l = absurd hs
between (c ∷ d ∷ s) (a ∷ []) (hc, hd, hs) ha l =
    let x = Pair-of c d hc hd in
    let (m, p, _, _) = digit_of_hex a ha in
    let least = to_buffer_pair a 48 [] m 0 p hex_value-zero in
    let greatest = to_buffer_pair a 102 [] m 15 p hex_value-last in
    rw (x.buffer s, least, greatest, to_buffer_nil)
      (same_digit x.high x.low m x.low_small
        ∙ hex_value_injective c a x.high m hc ha x.value_high p
        ∙ and_true (c == a))
between (c ∷ d ∷ s) (a ∷ b ∷ p) (hc, hd, hs) (ha, hb, hp) l =
    let x = Pair-of c d hc hd in
    let y = Pair-of a b ha hb in
    let n : length (a ∷ b ∷ p) / 2 + 1 ≡ suc (length p / 2 + 1) = omega arith in
    rw (n, x.buffer s, y.buffer (p ++ 48 ∷ []), y.buffer (p ++ 102 ∷ []))
      (same_head (x.high * 16 + x.low) (y.high * 16 + y.low)
          (leb_bytes (to_buffer (p ++ 48 ∷ [])) (take (length p / 2 + 1) (to_buffer s)))
          (leb_bytes (take (length p / 2 + 1) (to_buffer s)) (to_buffer (p ++ 102 ∷ [])))
        ∙ rw (same_byte x y hc hd ha hb, between s p hs hp (omega arith))
            (&&_assoc (c == a) (d == b) _))

-- Lower-case hex digits, at most 64, as the schema of a prefix asks.
pub record IsPrefix (p : Text) : Type 0 where
  pub digits : All IsHex p
  pub short : length p ≤ 64

-- Lower-case hex digits, 64 of them, as the schemas of ids and public keys ask.
pub record IsKey (s : Text) : Type 0 where
  pub digits : All IsHex s
  pub full : length s ≡ 64

-- `\x` and hex digits stand for the bytes that they spell.
abbrev pub ReadsHex : Postgres → Type 0
ReadsHex pg = (s : Text) → IsHexText s → pg.bytea (text "\\x" ++ s) ≡ to_buffer s

-- What a prefix in a group asks of the column.
abbrev pub group_test : Postgres → List ℕ → LengthGroup → Text → Bool
group_test pg bytes exact p = bytes === to_buffer p
group_test pg bytes even p = take (length p / 2) bytes === to_buffer p
group_test pg bytes odd p =
    leb_bytes (pg.bytea (text "\\x" ++ (p ++ text "0"))) (take (length p / 2 + 1) bytes)
    && leb_bytes (take (length p / 2 + 1) bytes) (pg.bytea (text "\\x" ++ (p ++ text "f")))

pub group_test_lem :
    (pg : Postgres) (s p : Text)
    → ReadsHex pg
    → IsKey s
    → IsPrefix p
    → group_test pg (to_buffer s) (length_group p) p ≡ starts_with s p
unfolding length_group
group_test_lem pg s p reads key prefix =
    let s_hex = IsHexText-of_even s key.digits (omega (arith, key.full)) in
    elim (Bool-cases (length p == 64)) [
      | inl long ↦
          let e : length p ≡ 64 = ground arith in
          rw long (
            whole s p s_hex (IsHexText-of_even p prefix.digits (omega arith))
              (omega (arith, key.full)))
      | inr short ↦ elim (Bool-cases (length p % 2 == 0)) [
        | inl two ↦
            rw (short, two) (take_even s p s_hex (IsHexText-of_even p prefix.digits (ground arith)))
        | inr one ↦
            let p_odd = IsOddHexText-of_odd p prefix.digits (ground arith) in
            let l : length p < length s = ground (arith, prefix.short, key.full) in
            let low = reads (p ++ 48 ∷ []) (IsHexText-append p 48 p_odd (inl (omega arith))) in
            let high = reads (p ++ 102 ∷ []) (IsHexText-append p 102 p_odd (inr (omega arith))) in
            rw (short, one, low, high) (between s p s_hex p_odd l)
      ]
    ]
