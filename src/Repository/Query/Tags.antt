-- ===== src/Repository/Query/Tags.antt =====
-- Asking the table `event_tags` for a tag is `isTagMatching` on the tags of the event: the join of
-- `findByFilters` in src/repositories/event-repository.ts.
use nostream.Prelude.{
  ℕ, ◌≡◌, refl, sym, ap, ◌∙◌, inl, inr, Bool, true, false, ◌&&◌, none, some, List, [], ◌∷◌, map,
  arith, length, any, All, Bool-cases, concat_map, any-append,
}
use nostream.Prelude.Text.{Text, ◌===◌, ===_iff, ===_comm, includes}
use nostream.Event.{Tag}
use nostream.Event.Filters.{is_tag_matching}
use nostream.Repository.{DbEvent}
use nostream.Repository.Query.{
  tag_is, tag_group, Postgres, holds, group_holds, is_filled, indexed_tags, process_event_tags,
  left_join,
}

-- Trimming the JSON of the texts of the tags gives the texts back: they have no quotes at an end and
-- nothing that JSON escapes.
abbrev pub ArePlain : Postgres → List Tag → Type 0
ArePlain pg = All (All (λ s. pg.trimmed s ≡ s))

abbrev pub NotEmpty : Text → Type 0
NotEmpty s = is_filled s ≡ true

length-letter : (name : Text) (letter : ℕ) → (name === letter ∷ []) ≡ true → length name ≡ 1
length-letter name letter h = ap length ((===_iff name (letter ∷ [])).0 h)

-- The conditions of an entry at one row of `event_tags`.
abbrev pub carries : Text → List Text → Text × Text → Bool
carries letter criteria (n, v) = n === letter && includes v criteria

any-tag_is :
    (pg : Postgres) (row : DbEvent) (letter n v : Text) (criteria : List Text)
    → any (holds pg row (some (n, v))) (map (tag_is letter) criteria)
      ≡ carries letter criteria (n, v)
unfolding holds includes
any-tag_is pg row letter n v [] = ground arith
any-tag_is pg row letter n v (c ∷ criteria) =
    ground (arith, any-tag_is pg row letter n v criteria, ===_comm c v)

any-tag_is_none :
    (pg : Postgres) (row : DbEvent) (letter : Text) (criteria : List Text)
    → any (holds pg row none) (map (tag_is letter) criteria) ≡ false
unfolding holds
any-tag_is_none pg row letter [] = refl
any-tag_is_none pg row letter (c ∷ criteria) = any-tag_is_none pg row letter criteria

module _ (pg : Postgres) (row : DbEvent) (letter : ℕ) where
  pub group_holds-tag_group :
      (criteria : List Text) (n v : Text)
      → group_holds pg row (some (n, v)) (tag_group (b'#' ∷ letter ∷ [], criteria))
        ≡ carries (letter ∷ []) criteria (n, v)
  unfolding group_holds tag_group
  group_holds-tag_group [] n v = unfold holds includes in ground arith
  group_holds-tag_group (c ∷ criteria) n v = any-tag_is pg row (letter ∷ []) n v (c ∷ criteria)

  pub group_holds-tag_group-none :
      (criteria : List Text)
      → group_holds pg row none (tag_group (b'#' ∷ letter ∷ [], criteria)) ≡ false
  unfolding group_holds tag_group
  group_holds-tag_group-none [] = unfold holds in refl
  group_holds-tag_group-none (c ∷ criteria) = any-tag_is_none pg row (letter ∷ []) (c ∷ criteria)

  any-carries :
      (criteria : List Text) (tags : List (Text × Text))
      → any
          (λ tag. group_holds pg row tag (tag_group (b'#' ∷ letter ∷ [], criteria)))
          (map some tags)
        ≡ any (carries (letter ∷ []) criteria) tags
  any-carries criteria [] = refl
  any-carries criteria ((n, v) ∷ tags) =
      rw (group_holds-tag_group criteria n v, any-carries criteria tags) refl

  pub any-left_join :
      (criteria : List Text) (tags : List (Text × Text))
      → any
          (λ tag. group_holds pg row tag (tag_group (b'#' ∷ letter ∷ [], criteria)))
          (left_join tags)
        ≡ any (carries (letter ∷ []) criteria) tags
  unfolding left_join
  any-left_join criteria [] = rw (group_holds-tag_group-none criteria) refl
  any-left_join criteria (t ∷ tags) = any-carries criteria (t ∷ tags)

  includes_filled :
      (criteria : List Text) (v : Text)
      → All NotEmpty criteria
      → includes v criteria ≡ true
      → is_filled v ≡ true
  unfolding includes
  includes_filled [] v h e = absurd (ground arith)
  includes_filled (c ∷ criteria) v (h, hs) e = elim (Bool-cases (c === v)) [
    | inl same ↦ ap is_filled (sym ((===_iff c v).0 same)) ∙ h
    | inr other ↦ includes_filled criteria v hs (ground arith)
  ]

  -- What the trigger leaves out carries nothing that is asked for.
  any-indexed_tags :
      (criteria : List Text) (tag : Tag)
      → All NotEmpty criteria
      → All (λ s. pg.trimmed s ≡ s) tag
      → any (carries (letter ∷ []) criteria) (indexed_tags pg tag)
        ≡ is_tag_matching (b'#' ∷ letter ∷ []) criteria tag
  unfolding indexed_tags is_tag_matching
  any-indexed_tags criteria [] h plain = refl
  any-indexed_tags criteria (name ∷ []) h plain = ground arith
  any-indexed_tags criteria (name ∷ value ∷ rest) h (p, (q, _)) =
      rw (p, q) (ground (arith, length-letter name letter, includes_filled criteria value h))

  -- Some row of `event_tags` for the event is asked for exactly where some tag of the event matches.
  pub any-process_event_tags :
      (criteria : List Text) (tags : List Tag)
      → All NotEmpty criteria
      → ArePlain pg tags
      → any (carries (letter ∷ []) criteria) (process_event_tags pg tags)
        ≡ any (is_tag_matching (b'#' ∷ letter ∷ []) criteria) tags
  unfolding process_event_tags
  any-process_event_tags criteria [] h plain = refl
  any-process_event_tags criteria (tag ∷ tags) h (p, ps) =
      any-append (carries (letter ∷ []) criteria) (indexed_tags pg tag)
        (concat_map (indexed_tags pg) tags)
      ∙ rw (any-indexed_tags criteria tag h p, any-process_event_tags criteria tags h ps) refl
