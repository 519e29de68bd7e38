-- ===== src/Runes/Roundtrip.antt =====
-- What is encoded is decoded again: alternatives, restrictions and runes.
use mathlib.Core.List.{append_assoc}
use nostream.Prelude.{
  ℕ, zero, suc, ◌<◌, ◌≡◌, refl, ap, ◌∙◌, true, false, Option, none, some, List, [], ◌∷◌, ◌++◌, map,
  arith, ◌==◌, if◌then◌else◌, any, length, All,
}
use nostream.Prelude.Text.{Text}
use nostream.Runes.{
  Alternative, ok, has_punctuation, is_cond, is_special, new_alternative, escape,
  encode_alternative, join,
}
use nostream.Runes.Decode.{
  split_operator, read_value, prepend_value, decode_found, decode_alternative, restriction_loop,
}

-- What the constructor lets through.
pub record IsValid (a : Alternative) : Type 0 where
  pub field : any has_punctuation a.field ≡ false
  pub cond : is_cond a.cond ≡ true

-- Where a value ends: what is left when a value stands before `t`.
abbrev pub after_value : Text → Option Text
after_value [] = some []
after_value (c ∷ s) = if c == b'|' then some s else if c == b'&' then some (c ∷ s) else none

-- Where a restriction ends.
abbrev pub after_restriction : Text → Option Text
after_restriction [] = some []
after_restriction (c ∷ s) = if c == b'&' then some s else none

read_value-end : (t rest : Text) → after_value t ≡ some rest → read_value t ≡ ([], rest)
unfolding read_value
read_value-end [] rest h = ground arith
read_value-end (c ∷ []) rest h = ground arith
read_value-end (c ∷ d ∷ s) rest h = ground arith

read_value-plain :
    (c : ℕ) (s : Text) → is_special c ≡ false → read_value (c ∷ s) ≡ prepend_value c (read_value s)
unfolding read_value
read_value-plain c [] h = ground arith
read_value-plain c (d ∷ s) h = ground arith

read_value-escaped :
    (c : ℕ) (s : Text) → read_value (b'\\' ∷ c ∷ s) ≡ prepend_value c (read_value s)
unfolding read_value
read_value-escaped c s = refl

read_value-escape :
    (v t rest : Text) → after_value t ≡ some rest → read_value (escape v ++ t) ≡ (v, rest)
unfolding escape
read_value-escape [] t rest h = read_value-end t rest h
read_value-escape (c ∷ v) t rest h = ground (
  arith,
  read_value-plain c (escape v ++ t),
  read_value-escaped c (escape v ++ t),
  read_value-escape v t rest h,
)

is_cond-punctuation : (c : ℕ) → is_cond c ≡ true → has_punctuation c ≡ true
unfolding is_cond has_punctuation
is_cond-punctuation c h = ground arith

split_operator-append :
    (field : Text) (cond : ℕ) (s : Text)
    → any has_punctuation field ≡ false
    → has_punctuation cond ≡ true
    → split_operator (field ++ cond ∷ s) ≡ some (field, cond, s)
unfolding split_operator
split_operator-append [] cond s h p = rw p
split_operator-append (c ∷ field) cond s h p =
    ground (arith, split_operator-append field cond s (ground arith) p)

new_alternative_lem : (a : Alternative) → IsValid a → new_alternative a.field a.cond a.value ≡ ok a
unfolding new_alternative
new_alternative_lem a v = ground (arith, v.field, v.cond)

decode_alternative_parts :
    (s field : Text) (cond : ℕ) (s' value rest : Text) (a : Alternative)
    → split_operator s ≡ some (field, cond, s')
    → read_value s' ≡ (value, rest)
    → new_alternative field cond value ≡ ok a
    → decode_alternative s ≡ ok (a, rest)
unfolding decode_alternative decode_found
decode_alternative_parts s field cond s' value rest a p q r =
    rw (p, decode_alternative) (rw q (rw r))

-- An alternative before the end of the text, a bar or an ampersand is decoded again.
pub decode_alternative-encode :
    (a : Alternative) (t rest : Text)
    → IsValid a
    → after_value t ≡ some rest
    → decode_alternative (encode_alternative a ++ t) ≡ ok (a, rest)
unfolding encode_alternative
decode_alternative-encode a t rest v h = rw (append_assoc a.field (a.cond ∷ escape a.value) t) (
    decode_alternative_parts _ a.field a.cond (escape a.value ++ t) a.value rest a
      (split_operator-append a.field a.cond (escape a.value ++ t) v.field
        (is_cond-punctuation a.cond v.cond))
      (read_value-escape a.value t rest h) (new_alternative_lem a v))

not_ampersand : (c : ℕ) → has_punctuation c ≡ false → (c == b'&') ≡ false
unfolding has_punctuation
not_ampersand c h = ground arith

cond_not_ampersand : (c : ℕ) → is_cond c ≡ true → (c == b'&') ≡ false
unfolding is_cond
cond_not_ampersand c h = ground arith

-- The text of an alternative is not empty and does not begin with an ampersand.
encode_alternative-head :
    (a : Alternative)
    → IsValid a
    → (c : ℕ) × (s : Text) × (encode_alternative a ≡ c ∷ s) × ((c == b'&') ≡ false)
unfolding encode_alternative
encode_alternative-head a v = go a.field v.field
  where
    go :
        (field : Text)
        → any has_punctuation field ≡ false
        → (c : ℕ) × (s : Text) × (field ++ a.cond ∷ escape a.value ≡ c ∷ s) × ((c == b'&') ≡ false)
    go [] h = (a.cond, escape a.value, refl, cond_not_ampersand a.cond v.cond)
    go (c ∷ field) h = (c, field ++ a.cond ∷ escape a.value, refl, not_ampersand c (ground arith))

restriction_loop-step :
    (fuel : ℕ) (before : List Alternative) (a : Alternative) (t rest : Text)
    → IsValid a
    → after_value t ≡ some rest
    → restriction_loop (suc fuel) before (encode_alternative a ++ t)
      ≡ restriction_loop fuel (before ++ a ∷ []) rest
unfolding restriction_loop
restriction_loop-step fuel before a t rest v h =
    let (c, s, e, no_amp) = encode_alternative-head a v in
    let decoded : decode_alternative (c ∷ s ++ t) ≡ ok (a, rest) =
      rw e at (decode_alternative-encode a t rest v h) in
    rw e (ground (arith, decoded, no_amp))

after_restriction-value :
    (t rest : Text)
    → after_restriction t ≡ some rest
    → (s : Text) × (after_value t ≡ some s)
      × ((fuel : ℕ) (r : List Alternative) → restriction_loop fuel r s ≡ ok (r, rest))
unfolding restriction_loop
after_restriction-value [] rest h = ([], refl, λ fuel r. ground arith)
after_restriction-value (c ∷ t) rest h = (c ∷ t, ground arith, stops)
  where
    stops : (fuel : ℕ) (r : List Alternative) → restriction_loop fuel r (c ∷ t) ≡ ok (r, rest)
    stops zero r = ground arith
    stops (suc fuel) r = ground arith

-- The loop reads the alternatives one by one.
pub restriction_loop-encode :
    (more : List Alternative) (a : Alternative) (fuel : ℕ) (before : List Alternative)
    (t rest : Text)
    → All IsValid (a ∷ more)
    → length more < fuel
    → after_restriction t ≡ some rest
    → restriction_loop fuel before (join b'|' (map encode_alternative (a ∷ more)) ++ t)
      ≡ ok (before ++ a ∷ more, rest)
unfolding join
restriction_loop-encode _ a zero before t rest v l h = absurd (omega arith)
restriction_loop-encode [] a (suc fuel) before t rest (v, _) l h =
    let (s, e, stops) = after_restriction-value t rest h in
    restriction_loop-step fuel before a t s v e ∙ stops fuel (before ++ a ∷ [])
restriction_loop-encode (b ∷ more) a (suc fuel) before t rest (v, vs) l h =
    let others = join b'|' (map encode_alternative (b ∷ more)) in
    rw (append_assoc (encode_alternative a) (b'|' ∷ others) t) (
      restriction_loop-step fuel before a (b'|' ∷ (others ++ t)) (others ++ t) v refl
      ∙ restriction_loop-encode more b fuel (before ++ a ∷ []) t rest vs (omega arith) h
      ∙ ap (λ (l : List Alternative). ok (l, rest)) (append_assoc before (a ∷ []) (b ∷ more)))
