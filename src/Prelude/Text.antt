-- ===== src/Prelude/Text.antt =====
-- JavaScript strings as lists of UTF-16 code units, so that `length`, indexing and `slice` count
-- what the program counts. Literals are written with `text`, and are ASCII.
use Prim.Native.Nat.{ℕ}
use Prim.Native.String.{String}
use Prim.Native.Char.{code}
use mathlib.Core.Path.{◌≡◌, refl, sym, ap}
use mathlib.Core.Logic.{◌↔◌}
use mathlib.Core.Bool.{Bool, true, false, ◌&&◌}
use mathlib.Core.List.{List, [], ◌∷◌, ◌++◌}
use mathlib.Core.Option.{Option, none, some}
use native.Mathlib.Omega.{arith}
use nostream.Prelude.Tests.{eq_of_iff, ◌==◌, if◌then◌else◌}
use nostream.Prelude.Lists.{Any, any, any_iff}

abbrev pub Text : Type 0
Text = List ℕ

abbrev pub text : String → Text
text String.[] = []
text (String.◌∷◌ c s) = code c ∷ text s

-- `s === t`
infix 50 ◌===◌
unfoldable pub ◌===◌ : Text → Text → Bool
[] === [] = true
[] === (_ ∷ _) = false
(_ ∷ _) === [] = false
(a ∷ s) === (b ∷ t) = a == b && s === t

pub ===_sound : (s t : Text) → (s === t) ≡ true → s ≡ t
unfolding ◌===◌
===_sound [] [] h = refl
===_sound [] (_ ∷ _) h = absurd (ground arith)
===_sound (_ ∷ _) [] h = absurd (ground arith)
===_sound (a ∷ s) (b ∷ t) h = ground (arith, ===_sound s t)

pub ===_refl : (s : Text) → (s === s) ≡ true
unfolding ◌===◌
===_refl [] = refl
===_refl (a ∷ s) = ground (arith, ===_refl s)

pub ===_iff : (s t : Text) → ((s === t) ≡ true) ↔ (s ≡ t)
===_iff s t = (===_sound s t, λ e. cc (e, ===_refl s))

pub ===_comm : (s t : Text) → (s === t) ≡ (t === s)
===_comm s t =
    eq_of_iff (s === t) (t === s) (λ h. (===_iff t s).1 (sym ((===_iff s t).0 h)))
      (λ h. (===_iff s t).1 (sym ((===_iff t s).0 h)))

-- `s.startsWith(prefix)`
unfoldable pub starts_with : Text → Text → Bool
starts_with s [] = true
starts_with [] (_ ∷ _) = false
starts_with (a ∷ s) (b ∷ t) = a == b && starts_with s t

-- `s` is `t` followed by some rest.
abbrev pub HasPrefix : Text → Text → Type 0
HasPrefix s t = (rest : Text) × (s ≡ t ++ rest)

starts_with-append : (t rest : Text) → starts_with (t ++ rest) t ≡ true
unfolding starts_with
starts_with-append [] rest = refl
starts_with-append (b ∷ t) rest = ground (arith, starts_with-append t rest)

starts_with_sound : (s t : Text) → starts_with s t ≡ true → HasPrefix s t
unfolding starts_with
starts_with_sound s [] h = (s, refl)
starts_with_sound [] (b ∷ t) h = absurd (ground arith)
starts_with_sound (a ∷ s) (b ∷ t) h =
    let (rest, e) = starts_with_sound s t (ground arith) in (rest, ground arith)

pub starts_with_iff : (s t : Text) → (starts_with s t ≡ true) ↔ HasPrefix s t
starts_with_iff s t = (starts_with_sound s t, λ (rest, e). rw e (starts_with-append t rest))

-- `s.endsWith(suffix)`
unfoldable pub ends_with : Text → Text → Bool
ends_with [] suffix = [] === suffix
ends_with (c ∷ s) suffix =
    let later = ends_with s suffix in if (c ∷ s) === suffix then true else later

-- `xs.includes(s)`
unfoldable pub includes : Text → List Text → Bool
includes s = any (λ t. t === s)

pub includes_iff : (s : Text) (xs : List Text) → (includes s xs ≡ true) ↔ Any (λ t. t ≡ s) xs
unfolding includes
includes_iff s xs = any_iff (λ t. t ≡ s) (λ t. t === s) (λ t. ===_iff t s) xs

-- `xs.includes(n)` for numbers
unfoldable pub includes_number : ℕ → List ℕ → Bool
includes_number n = any (λ k. k == n)

pub includes_number_iff :
    (n : ℕ) (xs : List ℕ) → (includes_number n xs ≡ true) ↔ Any (λ k. k ≡ n) xs
unfolding includes_number
includes_number_iff n xs =
    any_iff (λ k. k ≡ n) (λ k. k == n) (λ k. (λ h. ground arith, λ e. ground arith)) xs

-- A value that may be `undefined` against one that is a string: `x === s`.
abbrev pub is_text : Option Text → Text → Bool
is_text none s = false
is_text (some t) s = t === s

pub is_text_iff : (o : Option Text) (s : Text) → (is_text o s ≡ true) ↔ (o ≡ some s)
is_text_iff none s = (λ h. absurd (ground arith), λ h. absurd (ground arith))
is_text_iff (some t) s = (λ h. ap some ((===_iff t s).0 h), λ e. (===_iff t s).1 (ground arith))
