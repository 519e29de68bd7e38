-- ===== src/Runes/Test.antt =====
-- `test` of src/utils/runes/alternative.ts, restriction.ts and rune-like.ts.
pub mod Passes
use nostream.Prelude.{
  ℕ, Bool, true, false, not, ◌&&◌, ◌||◌, Option, none, some, List, [], ◌∷◌, ◌++◌, ltb, ◌==◌,
  if◌then◌else◌, any,
}
use nostream.Prelude.Text.{Text, text, ◌===◌, starts_with, ends_with, includes}
use nostream.Action.{Outcome, done, failed, Thrown, error}
use nostream.Runes.{Alternative, Restriction}

-- A value that a rune is tested on: a function, a string, a list of strings, or anything else, by
-- what `String` makes of it.
pub data RuneValue : Type 0 where
  callable : (Alternative → Option Text) → RuneValue
  textual : Text → RuneValue
  listed : List Text → RuneValue
  opaque : Text → RuneValue

-- The numbers of the language, floats, as far as the tests use them: `Number.parseInt`, which is
-- `none` for NaN, `<`, and printing.
pub record Numbers (N : Type 0) : Type 0 where
  pub parse_int : Text → Option N
  pub is_below : N → N → Bool
  pub show : N → Text

abbrev join_with : Text → List Text → Text
join_with separator [] = []
join_with separator (s ∷ []) = s
join_with separator (s ∷ t ∷ rest) = s ++ (separator ++ join_with separator (t ∷ rest))

-- `String(value)`; a function is called, and never printed.
abbrev string_of : RuneValue → Text
string_of (callable f) = []
string_of (textual s) = s
string_of (listed items) = join_with (text ",") items
string_of (opaque s) = s

-- `s.includes(part)`, `s < t`
unfoldable pub has_part : Text → Text → Bool
has_part [] part = starts_with [] part
has_part (c ∷ s) part =
    let later = has_part s part in if starts_with (c ∷ s) part then true else later

unfoldable pub is_before : Text → Text → Bool
is_before s [] = false
is_before [] (c ∷ t) = true
is_before (a ∷ s) (b ∷ t) =
    let rest = is_before s t in if ltb a b then true else if a == b then rest else false

-- `why(cond, field, explanation)`
abbrev why : Bool → Text → Text → Outcome (Option Text)
why true field explanation = done none
why false field explanation = done (some (field ++ (text ": " ++ explanation)))

-- `value.includes(part)`
abbrev includes_part : RuneValue → Text → Outcome Bool
includes_part (textual s) part = done (has_part s part)
includes_part (listed items) part = done (includes part items)
includes_part _ part = failed (error (text "includes is not a function"))

abbrev why_included : Outcome Bool → Text → Text → Outcome (Option Text)
why_included (failed t) field value = failed t
why_included (done b) field value = why b field (text "does not contain " ++ value)

abbrev pub next_reason :
    Outcome (Option Text) → Outcome (Option (List Text)) → Outcome (Option (List Text))
next_reason (failed t) rest = failed t
next_reason (done none) rest = done none
next_reason (done (some reason)) (failed t) = failed t
next_reason (done (some reason)) (done none) = done none
next_reason (done (some reason)) (done (some reasons)) = done (some (reason ∷ reasons))

abbrev pub joined : Outcome (Option (List Text)) → Outcome (Option Text)
joined (failed t) = failed t
joined (done none) = done none
joined (done (some reasons)) = done (some (join_with (text " AND ") reasons))

abbrev pub next_result : Outcome (Option Text) → Outcome (Bool × Text) → Outcome (Bool × Text)
next_result (failed t) rest = failed t
next_result (done (some reasons)) rest = done (false, reasons)
next_result (done none) rest = rest

module _ {N : Type 0} (numbers : Numbers N) where
  abbrev compare_numbers : Bool → Text → Option N → Option N → Outcome (Option Text)
  compare_numbers is_less field none bound = why false field (text "not an integer field")
  compare_numbers is_less field (some actual) none = why false field (text "not a valid integer")
  compare_numbers true field (some actual) (some bound) =
      why (numbers.is_below actual bound) field (text ">= " ++ numbers.show bound)
  compare_numbers false field (some actual) (some bound) =
      why (numbers.is_below bound actual) field (text "<= " ++ numbers.show bound)

  -- The `switch` on the condition.
  unfoldable pub test_value : Alternative → RuneValue → Outcome (Option Text)
  test_value a v =
      let val = string_of v in
      if a.cond == b'!'
      then why false a.field (text "is present")
      else if a.cond == b'='
      then why (val === a.value) a.field (text "!= " ++ a.value)
      else if a.cond == b'/'
      then why (not (val === a.value)) a.field (text "= " ++ a.value)
      else if a.cond == b'^'
      then why (starts_with val a.value) a.field (text "does not start with " ++ a.value)
      else if a.cond == b'$'
      then why (ends_with val a.value) a.field (text "does not end with " ++ a.value)
      else if a.cond == b'~'
      then why_included (includes_part v a.value) a.field a.value
      else if a.cond == b'<' || a.cond == b'>'
      then compare_numbers (a.cond == b'<') a.field (numbers.parse_int val)
          (numbers.parse_int a.value)
      else if a.cond == b'{'
      then why (is_before val a.value) a.field (text "is the same or ordered after " ++ a.value)
      else if a.cond == b'}'
      then why (is_before a.value val) a.field (text "is the same or ordered before " ++ a.value)
      else done none

  abbrev test_found : Alternative → Option RuneValue → Outcome (Option Text)
  test_found a none = why (a.cond == b'!') a.field (text "is missing")
  test_found a (some (callable f)) = done (f a)
  test_found a (some v) = test_value a v

  -- `values field` is the value of a field that is `in` the record.
  unfoldable pub test_alternative : (Text → Option RuneValue) → Alternative → Outcome (Option Text)
  test_alternative values a = if a.cond == b'#' then done none else test_found a (values a.field)

  -- The loop of `Restriction.test`: the reasons, or `none` once an alternative passes.
  unfoldable pub test_loop :
      (Text → Option RuneValue) → List Alternative → Outcome (Option (List Text))
  test_loop values [] = done (some [])
  test_loop values (a ∷ alternatives) =
      next_reason (test_alternative values a) (test_loop values alternatives)

  unfoldable pub test_restriction : (Text → Option RuneValue) → Restriction → Outcome (Option Text)
  test_restriction values r = joined (test_loop values r)

  -- `RuneLike.test`
  unfoldable pub test_rune : (Text → Option RuneValue) → List Restriction → Outcome (Bool × Text)
  test_rune values [] = done (true, [])
  test_rune values (r ∷ restrictions) =
      next_result (test_restriction values r) (test_rune values restrictions)
