-- ===== src/Prelude/Lists.antt =====
-- Lists measured and indexed by native numbers, the array methods that the program calls
-- (`some`, `every`, `filter`, `find`), and the predicates that describe their results.
use Prim.Native.Nat.{ℕ, zero, suc, ◌+◌}
use mathlib.Core.Path.{◌≡◌, refl, subst}
use mathlib.Core.Logic.{◌↔◌, ◌⊎◌, inl, inr}
use mathlib.Core.Bool.{Bool, true, false, ◌&&◌, ◌||◌}
use mathlib.Core.List.{List, [], ◌∷◌, ◌++◌}
use mathlib.Core.Option.{Option, none, some}
use native.Mathlib.Omega.{arith}
use nostream.Prelude.Tests.{if◌then◌else◌, Bool-cases}

module _ {ℓ} {A : Type ℓ} where
  abbrev pub length : List A → ℕ
  length [] = 0
  length (x ∷ xs) = suc (length xs)

  abbrev pub get_elem? : List A → ℕ → Option A
  get_elem? [] i = none
  get_elem? (x ∷ xs) zero = some x
  get_elem? (x ∷ xs) (suc i) = get_elem? xs i

  abbrev pub take : ℕ → List A → List A
  take zero xs = []
  take (suc n) [] = []
  take (suc n) (x ∷ xs) = x ∷ take n xs

  pub length-append : (xs ys : List A) → length (xs ++ ys) ≡ length xs + length ys
  length-append [] ys = omega arith
  length-append (x ∷ xs) ys = omega (arith, length-append xs ys)

  -- `xs.some(p)`
  abbrev pub any : (A → Bool) → List A → Bool
  any p [] = false
  any p (x ∷ xs) = p x || any p xs

  -- `xs.every(p)`
  abbrev pub all : (A → Bool) → List A → Bool
  all p [] = true
  all p (x ∷ xs) = p x && all p xs

  -- `xs.filter(p)`
  abbrev pub filter : (A → Bool) → List A → List A
  filter p [] = []
  filter p (x ∷ xs) = let rest = filter p xs in if p x then x ∷ rest else rest

  -- `xs.find(p)`
  abbrev pub find : (A → Bool) → List A → Option A
  find p [] = none
  find p (x ∷ xs) = let rest = find p xs in if p x then some x else rest

pub any-append {ℓ} :
    {A : Type ℓ} (p : A → Bool) (xs ys : List A) → any p (xs ++ ys) ≡ (any p xs || any p ys)
any-append p [] ys = refl
any-append p (x ∷ xs) ys = ground (arith, any-append p xs ys)

module _ {ℓ κ} {A : Type ℓ} {B : Type κ} where
  -- `xs.flatMap(f)`
  abbrev pub concat_map : (A → List B) → List A → List B
  concat_map f [] = []
  concat_map f (x ∷ xs) = f x ++ concat_map f xs

module _ {ℓ κ} {A : Type ℓ} (P : A → Type κ) where
  abbrev pub All : List A → Type κ
  All [] = Unit
  All (x ∷ xs) = P x × All xs

  -- A member of the list, with its place, has the property.
  pub data Any : List A → Type (ℓ ⊔ κ) where
    here : {x : A} {xs : List A} → P x → Any (x ∷ xs)
    there : {x : A} {xs : List A} → Any xs → Any (x ∷ xs)

pub Any-uncons {ℓ κ} :
    {A : Type ℓ} {P : A → Type κ} {x : A} {xs : List A} → Any P (x ∷ xs) → P x ⊎ Any P xs
Any-uncons (here p) = inl p
Any-uncons (there a) = inr a

module _ {ℓ κ} {A : Type ℓ} (P : A → Type κ) (p : A → Bool) where
  any→Any : ((x : A) → p x ≡ true → P x) → (xs : List A) → any p xs ≡ true → Any P xs
  any→Any f [] h = absurd (ground arith)
  any→Any f (x ∷ xs) h = elim (Bool-cases (p x)) [
    | inl yes_x ↦ here (f x yes_x)
    | inr no_x ↦ there (any→Any f xs (ground arith))
  ]

  Any→any : ((x : A) → P x → p x ≡ true) → (xs : List A) → Any P xs → any p xs ≡ true
  Any→any f _ (here {x} {xs} h) = ground (arith, f x h)
  Any→any f _ (there {x} {xs} a) = ground (arith, Any→any f xs a)

  -- `some` finds a member exactly when there is one.
  pub any_iff : ((x : A) → (p x ≡ true) ↔ P x) → (xs : List A) → (any p xs ≡ true) ↔ Any P xs
  any_iff h xs = (any→Any (λ x. (h x).0) xs, Any→any (λ x. (h x).1) xs)

  pub all_iff : ((x : A) → (p x ≡ true) ↔ P x) → (xs : List A) → (all p xs ≡ true) ↔ All P xs
  all_iff h [] = (λ _. tt, λ _. refl)
  all_iff h (x ∷ xs) =
      let ih = all_iff h xs in
      (
        λ e. ((h x).0 (ground arith), ih.0 (ground arith)),
        λ a. ground (arith, (h x).1 a.0, ih.1 a.1),
      )

-- `x` is the first member of the list that has the property.
module _ {ℓ κ} {A : Type ℓ} (P : A → Type κ) where
  pub data First (x : A) : List A → Type (ℓ ⊔ κ) where
    now : {xs : List A} → P x → First x (x ∷ xs)
    later : {y : A} {xs : List A} → ¬ P y → First x xs → First x (y ∷ xs)

module _ {ℓ κ} {A : Type ℓ} (P : A → Type κ) (p : A → Bool) (h : (x : A) → (p x ≡ true) ↔ P x) where
  First-cons : (y : A) (xs : List A) (x : A) → P y → y ≡ x → First P x (y ∷ xs)
  First-cons y xs x py e = subst (λ z. First P z (y ∷ xs)) e (now py)

  find_sound : (xs : List A) (x : A) → find p xs ≡ some x → First P x xs
  find_sound [] x e = absurd (ground arith)
  find_sound (y ∷ xs) x e = elim (Bool-cases (p y)) [
    | inl found ↦ First-cons y xs x ((h y).0 found) (ground arith)
    | inr missed ↦
        later (λ py. absurd (ground (arith, (h y).1 py))) (find_sound xs x (ground arith))
  ]

  find_complete : (x : A) (xs : List A) → First P x xs → find p xs ≡ some x
  find_complete x _ (now {xs} px) = ground (arith, (h x).1 px)
  find_complete x _ (later {y} {xs} n f) = elim (Bool-cases (p y)) [
    | inl found ↦ absurd (n ((h y).0 found))
    | inr missed ↦ ground (arith, find_complete x xs f)
  ]

  pub find_iff : (xs : List A) (x : A) → (find p xs ≡ some x) ↔ First P x xs
  find_iff xs x = (find_sound xs x, find_complete x xs)
