-- ===== src/Runes/Whole.antt =====
-- Round trips of restrictions and of whole runes.
use mathlib.Core.List.{append_assoc, append-nil}
use nostream.Prelude.{
  ℕ, zero, suc, ◌<◌, ◌≡◌, refl, ap, ◌∙◌, false, some, List, [], ◌∷◌, ◌++◌, map, arith, length,
  length-append, All,
}
use nostream.Prelude.Text.{Text}
use nostream.Runes.{Alternative, Restriction, ok, encode_alternative, escape, join, new_restriction}
use nostream.Runes.Decode.{
  restriction_loop, decode_restriction, encode_restriction, encode_rune, is_space, strip, rune_loop,
  rune_from,
}
use nostream.Runes.Roundtrip.{IsValid, after_restriction, restriction_loop-encode}

length-encode_alternative : (a : Alternative) → 0 < length (encode_alternative a)
unfolding encode_alternative
length-encode_alternative a = omega (arith, length-append a.field (a.cond ∷ escape a.value))

-- The text is at least as long as the alternatives are many.
length-join :
    (more : List Alternative) (a : Alternative)
    → length more < length (join b'|' (map encode_alternative (a ∷ more)))
unfolding join
length-join [] a = length-encode_alternative a
length-join (b ∷ more) a = omega (
  arith,
  length-join more b,
  length-append (encode_alternative a) (b'|' ∷ join b'|' (map encode_alternative (b ∷ more))),
)

-- A restriction that its constructor and those of its alternatives let through.
abbrev pub IsRestriction : Restriction → Type 0
IsRestriction [] = ⊥
IsRestriction (a ∷ more) = All IsValid (a ∷ more)

-- The text of a restriction, at the end or before an ampersand, is decoded to the restriction.
pub decode_restriction-encode :
    (r : Restriction) (t rest : Text)
    → IsRestriction r
    → after_restriction t ≡ some rest
    → decode_restriction (encode_restriction r ++ t) ≡ ok (r, rest)
unfolding decode_restriction encode_restriction new_restriction
decode_restriction-encode [] t rest v h = absurd v
decode_restriction-encode (a ∷ more) t rest v h =
    let s = join b'|' (map encode_alternative (a ∷ more)) in
    let enough : length more < length (s ++ t) =
      omega (arith, length-join more a, length-append s t) in
    rw (restriction_loop-encode more a (length (s ++ t)) [] t rest v enough h)

decode_restriction-nil : (r : Restriction) (rest : Text) → decode_restriction [] ≡ ok (r, rest) → ⊥
unfolding decode_restriction restriction_loop new_restriction
decode_restriction-nil r rest h = cc

rune_loop-step :
    (fuel : ℕ) (before : List Restriction) (s : Text) (r : Restriction) (rest : Text)
    → decode_restriction s ≡ ok (r, rest)
    → rune_loop (suc fuel) before s ≡ rune_loop fuel (before ++ r ∷ []) rest
unfolding rune_loop
rune_loop-step fuel before [] r rest h = absurd (decode_restriction-nil r rest h)
rune_loop-step fuel before (c ∷ s) r rest h = rw h

rune_loop-nil : (fuel : ℕ) (before : List Restriction) → rune_loop fuel before [] ≡ ok before
unfolding rune_loop
rune_loop-nil zero before = refl
rune_loop-nil (suc fuel) before = refl

rune_loop-encode :
    (rs : List Restriction) (r : Restriction) (fuel : ℕ) (before : List Restriction)
    → All IsRestriction (r ∷ rs)
    → length rs < fuel
    → rune_loop fuel before (join b'&' (map encode_restriction (r ∷ rs))) ≡ ok (before ++ r ∷ rs)
unfolding join
rune_loop-encode _ r zero before v l = absurd (omega arith)
rune_loop-encode [] r (suc fuel) before (v, _) l =
    rune_loop-step fuel before (encode_restriction r) r []
      (rw (append-nil (encode_restriction r)) at (decode_restriction-encode r [] [] v refl))
    ∙ rune_loop-nil fuel (before ++ r ∷ [])
rune_loop-encode (q ∷ rs) r (suc fuel) before (v, vs) l =
    let others = join b'&' (map encode_restriction (q ∷ rs)) in
    rune_loop-step fuel before (encode_restriction r ++ b'&' ∷ others) r others
      (decode_restriction-encode r (b'&' ∷ others) others v refl)
    ∙ rune_loop-encode rs q fuel (before ++ r ∷ []) vs (omega arith)
    ∙ ap (λ (l : List Restriction). ok l) (append_assoc before (r ∷ []) (q ∷ rs))

length-encode_restriction : (r : Restriction) → IsRestriction r → 0 < length (encode_restriction r)
unfolding encode_restriction
length-encode_restriction [] v = absurd v
length-encode_restriction (a ∷ more) v = omega (arith, length-join more a)

length-join_restrictions :
    (rs : List Restriction) (r : Restriction)
    → All IsRestriction (r ∷ rs)
    → length rs < length (join b'&' (map encode_restriction (r ∷ rs)))
unfolding join
length-join_restrictions [] r (v, _) = length-encode_restriction r v
length-join_restrictions (q ∷ rs) r (v, vs) = omega (
  arith,
  length-join_restrictions rs q vs,
  length-append (encode_restriction r) (b'&' ∷ join b'&' (map encode_restriction (q ∷ rs))),
)

abbrev pub HasNoSpace : Text → Type 0
HasNoSpace = All (λ c. is_space c ≡ false)

strip-HasNoSpace : (s : Text) → HasNoSpace s → strip s ≡ s
unfolding strip
strip-HasNoSpace [] h = refl
strip-HasNoSpace (c ∷ s) (h, hs) = ground (arith, strip-HasNoSpace s hs)

rune_loop-encode_rune :
    (rs : List Restriction)
    → All IsRestriction rs
    → rune_loop (length (encode_rune rs)) [] (encode_rune rs) ≡ ok rs
unfolding encode_rune join
rune_loop-encode_rune [] v = rune_loop-nil 0 []
rune_loop-encode_rune (r ∷ rs) v =
    rune_loop-encode rs r (length (join b'&' (map encode_restriction (r ∷ rs)))) [] v
      (length-join_restrictions rs r v)

-- A rune whose text has no white space is read back from its text.
pub rune_from-encode_rune :
    (rs : List Restriction)
    → All IsRestriction rs
    → HasNoSpace (encode_rune rs)
    → rune_from (encode_rune rs) ≡ ok rs
unfolding rune_from
rune_from-encode_rune rs v h = rw (strip-HasNoSpace (encode_rune rs) h) (rune_loop-encode_rune rs v)
