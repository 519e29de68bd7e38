-- ===== src/Repository/Query/Groups.antt =====
-- Grouping prefixes by their length, as `findByFilters` in src/repositories/event-repository.ts
-- does, loses none: the group of conditions asks that some prefix fits.
use nostream.Prelude.{
  ℕ, ◌/◌, ◌≡◌, refl, sym, ap, ◌∙◌, inl, inr, Bool, true, false, ◌||◌, Option, none, some, List, [],
  ◌∷◌, ◌++◌, map, arith, length, take, any, All, Bool-cases, concat_map, any-append,
}
use nostream.Prelude.Text.{Text, ◌===◌, starts_with}
use nostream.Bytes.{to_buffer}
use nostream.Repository.{DbEvent}
use nostream.Repository.Query.{
  Column, Condition, LengthGroup, exact, even, odd, length_group, is_same_group, Groups,
  add_to_group, group_by_length, even_condition, odd_condition, group_conditions, prefix_group,
  Postgres, column, JoinedTag, holds, group_holds, is_filled,
}
use nostream.Repository.Query.Prefixes.{IsPrefix, IsKey, ReadsHex, group_test, group_test_lem}

||_assoc : (a b c : Bool) → (a || (b || c)) ≡ ((a || b) || c)
||_assoc a b c = ground arith

swap_last : (a b c : Bool) → ((a || (b || false)) || c) ≡ ((a || c) || b)
swap_last a b c = ground arith

is_filled-append {ℓ} :
    {A : Type ℓ} (xs ys : List A) → is_filled (xs ++ ys) ≡ (is_filled xs || is_filled ys)
is_filled-append [] ys = refl
is_filled-append (x ∷ xs) ys = refl

is_same_group_sound : (g h : LengthGroup) → is_same_group g h ≡ true → g ≡ h
is_same_group_sound exact exact e = refl
is_same_group_sound even even e = refl
is_same_group_sound odd odd e = refl
is_same_group_sound _ _ e = cc

module _ (pg : Postgres) (row : DbEvent) (tag : JoinedTag) (c : Column) where
  in_values_lem :
      (prefixes : List Text)
      → any (λ value. column c row === value) (map to_buffer prefixes)
        ≡ any (group_test pg (column c row) exact) prefixes
  in_values_lem [] = refl
  in_values_lem (p ∷ prefixes) = ground (arith, in_values_lem prefixes)

  holds-group_conditions :
      (g : LengthGroup) (prefixes : List Text)
      → any (holds pg row tag) (group_conditions (c ∷ []) (g, prefixes))
        ≡ any (group_test pg (column c row) g) prefixes
  unfolding holds group_conditions even_condition odd_condition
  holds-group_conditions exact prefixes = ground (arith, in_values_lem prefixes)
  holds-group_conditions even [] = refl
  holds-group_conditions even (p ∷ prefixes) =
      ap (λ b. (take (length p / 2) (column c row) === to_buffer p) || b)
        (holds-group_conditions even prefixes)
  holds-group_conditions odd [] = refl
  holds-group_conditions odd (p ∷ prefixes) =
      ap (λ b. group_test pg (column c row) odd p || b) (holds-group_conditions odd prefixes)

  -- Some prefix in its group fits.
  test_groups : Groups → Bool
  test_groups groups = any (λ (g, prefixes). any (group_test pg (column c row) g) prefixes) groups

  holds-groups :
      (groups : Groups)
      → any (holds pg row tag) (concat_map (group_conditions (c ∷ [])) groups) ≡ test_groups groups
  unfolding test_groups
  holds-groups [] = refl
  holds-groups ((g, prefixes) ∷ groups) =
      any-append (holds pg row tag) (group_conditions (c ∷ []) (g, prefixes)) _
      ∙ rw (holds-group_conditions g prefixes, holds-groups groups) refl

  test_groups-add :
      (g : LengthGroup) (s : Text) (groups : Groups)
      → test_groups (add_to_group g s groups)
        ≡ (test_groups groups || group_test pg (column c row) g s)
  unfolding test_groups add_to_group
  test_groups-add g s [] = ground arith
  test_groups-add g s ((h, texts) ∷ groups) = elim (Bool-cases (is_same_group g h)) [
    | inl same ↦
        let e = ap (λ k. group_test pg (column c row) k s) (is_same_group_sound g h same) in
        let both = any-append (group_test pg (column c row) h) texts (s ∷ []) in
        rw (same, both, e)
          (swap_last (any (group_test pg (column c row) h) texts) (group_test pg (column c row) h s)
            (test_groups groups))
    | inr other ↦ rw other (
        ap (λ b. any (group_test pg (column c row) h) texts || b) (test_groups-add g s groups)
        ∙ ||_assoc (any (group_test pg (column c row) h) texts) (test_groups groups)
            (group_test pg (column c row) g s))
  ]

  test_groups-by_length :
      (groups : Groups) (prefixes : List Text)
      → test_groups (group_by_length groups prefixes) ≡ (
          test_groups groups || any (λ p. group_test pg (column c row) (length_group p) p) prefixes)
  unfolding group_by_length
  test_groups-by_length groups [] = ground arith
  test_groups-by_length groups (p ∷ prefixes) =
      test_groups-by_length (add_to_group (length_group p) p groups) prefixes
      ∙ rw (test_groups-add (length_group p) p groups) (
          sym (
            ||_assoc (test_groups groups) (group_test pg (column c row) (length_group p) p)
              (any (λ p. group_test pg (column c row) (length_group p) p) prefixes)))

or_true : (a : Bool) → (a || true) ≡ true
or_true a = ground arith

group_conditions-filled :
    (c : Column) (g : LengthGroup) (texts : List Text) (s : Text)
    → is_filled (group_conditions (c ∷ []) (g, texts ++ s ∷ [])) ≡ true
unfolding group_conditions
group_conditions-filled c exact texts s = refl
group_conditions-filled c even [] s = refl
group_conditions-filled c even (t ∷ texts) s = refl
group_conditions-filled c odd [] s = refl
group_conditions-filled c odd (t ∷ texts) s = refl

add_to_group-filled :
    (c : Column) (g : LengthGroup) (s : Text) (groups : Groups)
    → is_filled (concat_map (group_conditions (c ∷ [])) (add_to_group g s groups)) ≡ true
unfolding add_to_group
add_to_group-filled c g s [] =
    is_filled-append (group_conditions (c ∷ []) (g, s ∷ [])) []
    ∙ rw (group_conditions-filled c g [] s) refl
add_to_group-filled c g s ((h, texts) ∷ groups) = elim (Bool-cases (is_same_group g h)) [
  | inl same ↦ rw same (
      is_filled-append (group_conditions (c ∷ []) (h, texts ++ s ∷ [])) _
      ∙ rw (group_conditions-filled c h texts s) refl)
  | inr other ↦ rw other (
      is_filled-append (group_conditions (c ∷ []) (h, texts)) _
      ∙ rw (add_to_group-filled c g s groups) (or_true _))
]

group_by_length-filled :
    (c : Column) (groups : Groups) (prefixes : List Text)
    → is_filled (concat_map (group_conditions (c ∷ [])) groups) ≡ true
    → is_filled (concat_map (group_conditions (c ∷ [])) (group_by_length groups prefixes)) ≡ true
unfolding group_by_length
group_by_length-filled c groups [] h = h
group_by_length-filled c groups (p ∷ prefixes) h =
    group_by_length-filled c (add_to_group (length_group p) p groups) prefixes
      (add_to_group-filled c (length_group p) p groups)

group_holds-filled :
    (pg : Postgres) (row : DbEvent) (tag : JoinedTag) (conditions : List Condition)
    → is_filled conditions ≡ true
    → group_holds pg row tag conditions ≡ any (holds pg row tag) conditions
unfolding group_holds
group_holds-filled pg row tag [] h = cc
group_holds-filled pg row tag (c ∷ conditions) h = refl

-- What an optional list of prefixes asks of a text.
abbrev pub some_prefix : Text → Option (List Text) → Bool
some_prefix s none = true
some_prefix s (some prefixes) = any (starts_with s) prefixes

abbrev pub ArePrefixes : Option (List Text) → Type 0
ArePrefixes none = Unit
ArePrefixes (some prefixes) = All IsPrefix prefixes

any-group_test :
    (pg : Postgres) (s : Text) (bytes : List ℕ) (prefixes : List Text)
    → bytes ≡ to_buffer s
    → ReadsHex pg
    → IsKey s
    → All IsPrefix prefixes
    → any (λ p. group_test pg bytes (length_group p) p) prefixes ≡ any (starts_with s) prefixes
any-group_test pg s bytes [] e reads key h = refl
any-group_test pg s bytes (p ∷ prefixes) e reads key (h, hs) =
    let rest = any-group_test pg s bytes prefixes e reads key hs in
    rw (rest, e, group_test_lem pg s p reads key h) refl

-- A group of prefixes asks that the hex text of the column starts with one of them.
pub group_holds-prefix_group :
    (pg : Postgres) (row : DbEvent) (tag : JoinedTag) (c : Column) (s : Text)
    (o : Option (List Text))
    → ReadsHex pg
    → IsKey s
    → column c row ≡ to_buffer s
    → ArePrefixes o
    → group_holds pg row tag (prefix_group (c ∷ []) o) ≡ some_prefix s o
unfolding prefix_group test_groups group_by_length
group_holds-prefix_group pg row tag c s none reads key e h = unfold group_holds in refl
group_holds-prefix_group pg row tag c s (some []) reads key e h = unfold group_holds holds in refl
group_holds-prefix_group pg row tag c s (some (p ∷ prefixes)) reads key e h =
    group_holds-filled pg row tag
      (concat_map (group_conditions (c ∷ [])) (group_by_length [] (p ∷ prefixes)))
      (group_by_length-filled c (add_to_group (length_group p) p []) prefixes
        (add_to_group-filled c (length_group p) p []))
    ∙ holds-groups pg row tag c (group_by_length [] (p ∷ prefixes))
    ∙ test_groups-by_length pg row tag c [] (p ∷ prefixes)
    ∙ any-group_test pg s (column c row) (p ∷ prefixes) e reads key h
