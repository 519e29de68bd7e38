-- ===== src/Runes/Decode.antt =====
-- `decode` of src/utils/runes/alternative.ts and restriction.ts, `encode` of restriction.ts and
-- rune-like.ts, and `from` of rune-like.ts. Each loop takes one round for each code unit at most.
use nostream.Prelude.{
  ℕ, zero, suc, Bool, ◌&&◌, ◌||◌, not, Option, none, some, List, [], ◌∷◌, ◌++◌, map, leb, ◌==◌,
  if◌then◌else◌, filter, length,
}
use nostream.Prelude.Text.{Text, text}
use nostream.Runes.{
  Alternative, Restriction, Result, ok, thrown, no_operator, out_of_fuel, ◌>>=◌, has_punctuation,
  new_alternative, new_restriction, encode_alternative, join,
}

abbrev pub prepend : ℕ → Text × ℕ × Text → Text × ℕ × Text
prepend c (field, cond, s) = (c ∷ field, cond, s)

-- The first loop: what stands before the first punctuation, that, and what follows.
unfoldable pub split_operator : Text → Option (Text × ℕ × Text)
split_operator [] = none
split_operator (c ∷ s) =
    let rest = split_operator s in
    if has_punctuation c
    then some ([], c, s)
    else elim rest [ none ↦ none | some found ↦ some (prepend c found) ]

abbrev pub prepend_value : ℕ → Text × Text → Text × Text
prepend_value c (value, s) = (c ∷ value, s)

-- The second loop: the value up to a bar, which is skipped, or an ampersand, which is not. After a
-- backslash at the end the program appends `undefined`, as text.
unfoldable pub read_value : Text → Text × Text
read_value [] = ([], [])
read_value (c ∷ []) =
    if c == b'|'
    then ([], [])
    else if c == b'&'
    then ([], c ∷ [])
    else if c == b'\\'
    then (text "undefined", [])
    else (c ∷ [], [])
read_value (c ∷ d ∷ s) =
    let escaped = prepend_value d (read_value s) in
    let plain = prepend_value c (read_value (d ∷ s)) in
    if c == b'|'
    then ([], d ∷ s)
    else if c == b'&'
    then ([], c ∷ d ∷ s)
    else if c == b'\\'
    then escaped
    else plain

abbrev with_rest : Text → Alternative → Result (Alternative × Text)
with_rest s a = ok (a, s)

unfoldable pub decode_found : Text × ℕ × Text → Result (Alternative × Text)
decode_found (field, cond, s) =
    let (value, rest) = read_value s in new_alternative field cond value >>= with_rest rest

unfoldable pub decode_alternative : Text → Result (Alternative × Text)
decode_alternative s = elim (split_operator s) [
  | none ↦ thrown no_operator
  | some found ↦ decode_found found
]

-- The loop of `Restriction.decode`, with the alternatives so far.
unfoldable pub restriction_loop : ℕ → List Alternative → Text → Result (List Alternative × Text)
restriction_loop fuel alternatives [] = ok (alternatives, [])
restriction_loop zero alternatives (c ∷ s) =
    if c == b'&' then ok (alternatives, s) else thrown out_of_fuel
restriction_loop (suc fuel) alternatives (c ∷ s) =
    let more = decode_alternative (c ∷ s) >>= λ (a, rest).
    restriction_loop fuel (alternatives ++ a ∷ []) rest in
    if c == b'&' then ok (alternatives, s) else more

abbrev built : List Alternative × Text → Result (Restriction × Text)
built (alternatives, s) = new_restriction alternatives >>= λ r. ok (r, s)

unfoldable pub decode_restriction : Text → Result (Restriction × Text)
decode_restriction s = restriction_loop (length s) [] s >>= built

unfoldable pub encode_restriction : Restriction → Text
encode_restriction r = join b'|' (map encode_alternative r)

unfoldable pub encode_rune : List Restriction → Text
encode_rune restrictions = join b'&' (map encode_restriction restrictions)

-- `\s`
unfoldable pub is_space : ℕ → Bool
is_space c =
    (leb 9 c && leb c 13)
    || c == 32
    || c == 0xa0
    || c == 0x1680
    || (leb 0x2000 c && leb c 0x200a)
    || c == 0x2028
    || c == 0x2029
    || c == 0x202f
    || c == 0x205f
    || c == 0x3000
    || c == 0xfeff

-- `input.replace(/\s+/g, '')`
unfoldable pub strip : Text → Text
unfolding is_space
strip = filter (λ c. not (is_space c))

-- The loop of `RuneLike.from`.
unfoldable pub rune_loop : ℕ → List Restriction → Text → Result (List Restriction)
rune_loop fuel restrictions [] = ok restrictions
rune_loop zero restrictions (c ∷ s) = thrown out_of_fuel
rune_loop (suc fuel) restrictions (c ∷ s) =
    decode_restriction (c ∷ s) >>= λ (r, rest). rune_loop fuel (restrictions ++ r ∷ []) rest

abbrev rune_from_stripped : Text → Result (List Restriction)
rune_from_stripped s = rune_loop (length s) [] s

unfoldable pub rune_from : Text → Result (List Restriction)
rune_from s = rune_from_stripped (strip s)
