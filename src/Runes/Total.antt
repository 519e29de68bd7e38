-- ===== src/Runes/Total.antt =====
-- Decoding ends on every text: each round of the loops uses up text.
use nostream.Prelude.{
  ℕ, zero, suc, ◌≤◌, ◌<◌, ◌≡◌, ◌≢◌, ◌⊎◌, refl, inl, inr, some, List, [], ◌∷◌, ◌++◌, arith, ◌==◌,
  length, Bool-cases, Option-cases,
}
use nostream.Prelude.Text.{Text}
use nostream.Runes.{
  Alternative, Restriction, RuneError, Result, ok, thrown, out_of_fuel, new_alternative,
  new_restriction, has_punctuation,
}
use nostream.Runes.Decode.{
  split_operator, read_value, decode_found, decode_alternative, restriction_loop,
  decode_restriction, rune_loop, rune_from, strip,
}

split_operator-shorter :
    (s : Text) (found : Text × ℕ × Text) → split_operator s ≡ some found → length found.2 < length s
unfolding split_operator
split_operator-shorter [] found h = absurd (ground arith)
split_operator-shorter (c ∷ s) found h = elim (Bool-cases (has_punctuation c)) [
  | inl p ↦ let e : (([], c, s)) ≡ found = ground arith in ground arith
  | inr p ↦ elim (Option-cases (split_operator s)) [
    | inl missing ↦ absurd (ground arith)
    | inr (inner, e) ↦ let l = split_operator-shorter s inner e in ground arith
  ]
]

read_value-shorter : (s : Text) → length (read_value s).1 ≤ length s
unfolding read_value
read_value-shorter [] = omega arith
read_value-shorter (c ∷ []) = ground arith
read_value-shorter (c ∷ d ∷ s) = ground (arith, read_value-shorter s, read_value-shorter (d ∷ s))

-- A result that is not a loop of the model giving up.
abbrev pub Ends {ℓ} : {A : Type ℓ} → Result A → Type ℓ
Ends r = r ≢ thrown out_of_fuel

Result-cases {ℓ} :
    {A : Type ℓ} (r : Result A) → ((a : A) × (r ≡ ok a)) ⊎ ((e : RuneError) × (r ≡ thrown e))
Result-cases (ok a) = inl (a, refl)
Result-cases (thrown e) = inr (e, refl)

new_alternative-Ends :
    (field : Text) (cond : ℕ) (value : Text) → Ends (new_alternative field cond value)
unfolding new_alternative
new_alternative-Ends field cond value h = absurd (ground arith)

decode_found-Ends : (found : Text × ℕ × Text) → Ends (decode_found found)
unfolding decode_found
decode_found-Ends (field, cond, s) h =
    elim (Result-cases (new_alternative field cond (read_value s).0)) [
      | inl (a, e) ↦ absurd (ground arith)
      | inr (e, thrown_e) ↦
          absurd (ground (arith, new_alternative-Ends field cond (read_value s).0))
    ]

decode_alternative-Ends : (s : Text) → Ends (decode_alternative s)
unfolding decode_alternative
decode_alternative-Ends s h = elim (Option-cases (split_operator s)) [
  | inl missing ↦ absurd (ground arith)
  | inr (found, e) ↦ decode_found-Ends found (ground arith)
]

decode_found-shorter :
    (found : Text × ℕ × Text) (a : Alternative) (rest : Text)
    → decode_found found ≡ ok (a, rest)
    → length rest ≤ length found.2
unfolding decode_found
decode_found-shorter (field, cond, s) a rest h =
    elim (Result-cases (new_alternative field cond (read_value s).0)) [
      | inl (b, e) ↦ ground (arith, read_value-shorter s)
      | inr (e, thrown_e) ↦ absurd (ground arith)
    ]

decode_alternative-shorter :
    (s : Text) (a : Alternative) (rest : Text)
    → decode_alternative s ≡ ok (a, rest)
    → length rest < length s
unfolding decode_alternative
decode_alternative-shorter s a rest h = elim (Option-cases (split_operator s)) [
  | inl missing ↦ absurd (ground arith)
  | inr (found, e) ↦
      let l = split_operator-shorter s found e in
      let k = decode_found-shorter found a rest (ground arith) in omega arith
]

restriction_loop-Ends :
    (fuel : ℕ) (before : List Alternative) (s : Text)
    → length s ≤ fuel
    → Ends (restriction_loop fuel before s)
unfolding restriction_loop
restriction_loop-Ends fuel before [] l h = absurd (ground arith)
restriction_loop-Ends zero before (c ∷ s) l h = absurd (omega arith)
restriction_loop-Ends (suc fuel) before (c ∷ s) l h = elim (Bool-cases (c == b'&')) [
  | inl stop ↦ absurd (ground arith)
  | inr go ↦ elim (Result-cases (decode_alternative (c ∷ s))) [
    | inl ((a, rest), e) ↦
        let k = decode_alternative-shorter (c ∷ s) a rest e in
        restriction_loop-Ends fuel (before ++ a ∷ []) rest (omega arith) (ground arith)
    | inr (e, thrown_e) ↦ decode_alternative-Ends (c ∷ s) (ground arith)
  ]
]

restriction_loop-shorter :
    (fuel : ℕ) (before more : List Alternative) (s rest : Text)
    → restriction_loop fuel before s ≡ ok (more, rest)
    → length rest ≤ length s
unfolding restriction_loop
restriction_loop-shorter fuel before more [] rest h = ground arith
restriction_loop-shorter zero before more (c ∷ s) rest h = ground arith
restriction_loop-shorter (suc fuel) before more (c ∷ s) rest h = elim (Bool-cases (c == b'&')) [
  | inl stop ↦ ground arith
  | inr go ↦ elim (Result-cases (decode_alternative (c ∷ s))) [
    | inl ((a, left), e) ↦
        let k = decode_alternative-shorter (c ∷ s) a left e in
        let l = restriction_loop-shorter fuel (before ++ a ∷ []) more left rest (ground arith) in
        omega arith
    | inr (e, thrown_e) ↦ absurd (ground arith)
  ]
]

-- On a text that is not empty the loop uses up something.
restriction_loop-uses :
    (fuel : ℕ) (before more : List Alternative) (c : ℕ) (s rest : Text)
    → restriction_loop fuel before (c ∷ s) ≡ ok (more, rest)
    → length rest ≤ length s
unfolding restriction_loop
restriction_loop-uses zero before more c s rest h = ground arith
restriction_loop-uses (suc fuel) before more c s rest h = elim (Bool-cases (c == b'&')) [
  | inl stop ↦ ground arith
  | inr go ↦ elim (Result-cases (decode_alternative (c ∷ s))) [
    | inl ((a, left), e) ↦
        let k = decode_alternative-shorter (c ∷ s) a left e in
        let l = restriction_loop-shorter fuel (before ++ a ∷ []) more left rest (ground arith) in
        omega arith
    | inr (e, thrown_e) ↦ absurd (ground arith)
  ]
]

decode_restriction-Ends : (s : Text) → Ends (decode_restriction s)
unfolding decode_restriction new_restriction
decode_restriction-Ends s h = elim (Result-cases (restriction_loop (length s) [] s)) [
  | inl (([], rest), e) ↦ absurd (ground arith)
  | inl ((a ∷ more, rest), e) ↦ absurd (ground arith)
  | inr (e, thrown_e) ↦ restriction_loop-Ends (length s) [] s (omega arith) (ground arith)
]

decode_restriction-uses :
    (c : ℕ) (s : Text) (r : Restriction) (rest : Text)
    → decode_restriction (c ∷ s) ≡ ok (r, rest)
    → length rest ≤ length s
unfolding decode_restriction new_restriction
decode_restriction-uses c s r rest h =
    elim (Result-cases (restriction_loop (length (c ∷ s)) [] (c ∷ s))) [
      | inl (([], left), e) ↦ absurd (ground arith)
      | inl ((a ∷ more, left), e) ↦
          let k = restriction_loop-uses (length (c ∷ s)) [] (a ∷ more) c s left e in ground arith
      | inr (e, thrown_e) ↦ absurd (ground arith)
    ]

rune_loop-Ends :
    (fuel : ℕ) (before : List Restriction) (s : Text)
    → length s ≤ fuel
    → Ends (rune_loop fuel before s)
unfolding rune_loop
rune_loop-Ends fuel before [] l h = absurd (ground arith)
rune_loop-Ends zero before (c ∷ s) l h = absurd (omega arith)
rune_loop-Ends (suc fuel) before (c ∷ s) l h = elim (Result-cases (decode_restriction (c ∷ s))) [
  | inl ((r, rest), e) ↦
      let k = decode_restriction-uses c s r rest e in
      rune_loop-Ends fuel (before ++ r ∷ []) rest (omega arith) (ground arith)
  | inr (e, thrown_e) ↦ decode_restriction-Ends (c ∷ s) (ground arith)
]

-- Reading a rune ends on every text: the loops never need more rounds than the text is long, so
-- that the result is a rune or an error of the program.
pub rune_from-ends : (s : Text) → rune_from s ≢ thrown out_of_fuel
unfolding rune_from
rune_from-ends s = rune_loop-Ends (length (strip s)) [] (strip s) (omega arith)
