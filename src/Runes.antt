-- ===== src/Runes.antt =====
-- src/utils/runes: restrictions on requests, their text and their test. What throws is a `Result`.
pub mod Decode
pub mod Roundtrip
pub mod Whole
pub mod Total
pub mod Test
use nostream.Prelude.{
  ℕ, Bool, true, false, ◌&&◌, ◌||◌, Option, none, some, List, [], ◌∷◌, ◌++◌, leb, ◌==◌,
  if◌then◌else◌, any, filter, not,
}
use nostream.Prelude.Text.{Text, text}

pub data RuneError : Type 0 where
  invalid_field : RuneError
  invalid_cond : RuneError
  no_operator : RuneError
  no_alternatives : RuneError
  -- No error of the program: a loop of the model has used up its rounds. It never comes out.
  out_of_fuel : RuneError

pub data Result {ℓ} (A : Type ℓ) : Type ℓ where
  ok : A → Result A
  thrown : RuneError → Result A

infixl 5 ◌>>=◌
abbrev pub ◌>>=◌ {ℓ κ} : {A : Type ℓ} {B : Type κ} → Result A → (A → Result B) → Result B
ok a >>= f = f a
thrown e >>= f = thrown e

pub record Alternative : Type 0 where
  pub field : Text
  -- One code unit.
  pub cond : ℕ
  pub value : Text

-- `punctuations`. In the class of the source `+-.` is a range, which holds the comma too.
unfoldable pub has_punctuation : ℕ → Bool
has_punctuation c =
    (leb b'!' c && leb c b'/')
    || (leb b':' c && leb c b'@')
    || (leb b'[' c && leb c b'^')
    || c == b'`'
    || (leb b'{' c && leb c b'~')

unfoldable pub is_cond : ℕ → Bool
is_cond c =
    any (λ k. c == k)
      (b'!' ∷ b'=' ∷ b'/' ∷ b'^' ∷ b'$' ∷ b'~' ∷ b'<' ∷ b'>' ∷ b'}' ∷ b'{' ∷ b'#' ∷ [])

-- The constructor.
unfoldable pub new_alternative : Text → ℕ → Text → Result Alternative
new_alternative field cond value =
    if any has_punctuation field
    then thrown invalid_field
    else if is_cond cond
    then ok (record { field = field; cond = cond; value = value })
    else thrown invalid_cond

-- `/[\\|&]/`
abbrev is_special : ℕ → Bool
is_special c = c == b'\\' || c == b'|' || c == b'&'

unfoldable pub escape : Text → Text
escape [] = []
escape (c ∷ s) = let rest = escape s in if is_special c then b'\\' ∷ c ∷ rest else c ∷ rest

unfoldable pub encode_alternative : Alternative → Text
encode_alternative a = a.field ++ a.cond ∷ escape a.value

-- `xs.join(separator)` for a separator of one code unit.
unfoldable pub join : ℕ → List Text → Text
join separator [] = []
join separator (x ∷ []) = x
join separator (x ∷ y ∷ xs) = x ++ separator ∷ join separator (y ∷ xs)

-- A restriction is its alternatives, a rune its restrictions.
abbrev pub Restriction : Type 0
Restriction = List Alternative

unfoldable pub new_restriction : List Alternative → Result Restriction
new_restriction [] = thrown no_alternatives
new_restriction (a ∷ alternatives) = ok (a ∷ alternatives)
