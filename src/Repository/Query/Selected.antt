-- ===== src/Repository/Query/Selected.antt =====
-- The events that `findByFilters` in src/repositories/event-repository.ts selects, against
-- `isEventMatchingFilter` of src/utils/event.ts.
use nostream.Prelude.{
  ℕ, ◌≡◌, ◌≢◌, refl, sym, ap, ◌∙◌, inl, inr, Bool, true, false, not, ◌&&◌, Option, none, some, List,
  [], ◌∷◌, ◌++◌, map, arith, leb, ltb, if◌then◌else◌, any, all, Any, here, there, Bool-cases,
}
use nostream.Prelude.Text.{Text, ===_iff, starts_with, includes_number}
use nostream.Event.{Event, SubscriptionFilter}
use nostream.Event.Filters.{is_event_matching_filter, is_entry_missed, present_and}
use nostream.Repository.{DbEvent}
use nostream.Repository.EventRows.{insert_row, upsert_row}
use nostream.Repository.Query.{
  kind_in, created_from, created_until, group_if, joined_tags, tag_group, tag_queries, build_query,
  Postgres, JoinedTag, group_holds, is_selected,
}
use nostream.Repository.Query.Prefixes.{ReadsHex}
use nostream.Repository.Query.Groups.{some_prefix}
use nostream.Repository.Query.Tags.{carries, group_holds-tag_group, group_holds-tag_group-none}
use nostream.Repository.Query.Agreement.{
  Holds, IsStorable, IsSimple, fixed_part, asked, all-append, all-map, selected,
}

guards_eq :
    (a b c d e g : Bool)
    → (if a
        then false
        else if b
        then false
        else if c
        then false
        else if d
        then false
        else if e
        then false
        else if g
        then false
        else true)
      ≡ ((not e && (not a && (not b && (not c && not d)))) && not g)
guards_eq a b c d e g = ground arith

not-present_and {ℓ} :
    {A : Type ℓ} (p q : A → Bool) (o : Option A)
    → ((a : A) → not (p a) ≡ q a)
    → not (present_and p o) ≡ asked q o
not-present_and p q none h = refl
not-present_and p q (some a) h = h a

not-not : (a : Bool) → not (not a) ≡ a
not-not a = ground arith

not-ltb : (a b : ℕ) → not (ltb a b) ≡ leb b a
not-ltb a b = ground arith

some_prefix_lem :
    (s : Text) (o : Option (List Text)) → asked (any (starts_with s)) o ≡ some_prefix s o
some_prefix_lem s none = refl
some_prefix_lem s (some prefixes) = refl

is_event_matching_filter_lem :
    (f : SubscriptionFilter) (e : Event)
    → is_event_matching_filter f e
      ≡ (fixed_part f e && not (any (is_entry_missed e) (tag_queries f)))
unfolding is_event_matching_filter tag_queries
is_event_matching_filter_lem f e =
    let ids = present_and (λ ids. not (any (starts_with e.id) ids)) f.ids in
    let kinds = present_and (λ kinds. not (includes_number e.kind kinds)) f.kinds in
    let since = present_and (λ since. ltb e.created_at since) f.since in
    let until = present_and (λ until. ltb until e.created_at) f.until in
    let authors = present_and (λ authors. not (any (starts_with e.pubkey) authors)) f.authors in
    let missed = any (is_entry_missed e) (tag_queries f) in
    guards_eq ids kinds since until authors missed
    ∙ rw
        (
          not-present_and (λ ids. not (any (starts_with e.id) ids)) (any (starts_with e.id)) f.ids
              (λ ids. not-not (any (starts_with e.id) ids)),
          not-present_and (λ kinds. not (includes_number e.kind kinds)) (includes_number e.kind)
              f.kinds (λ kinds. not-not (includes_number e.kind kinds)),
          not-present_and (λ since. ltb e.created_at since) (λ since. leb since e.created_at)
              f.since (λ since. not-ltb e.created_at since),
          not-present_and (λ until. ltb until e.created_at) (λ until. leb e.created_at until)
              f.until (λ until. not-ltb until e.created_at),
          not-present_and (λ authors. not (any (starts_with e.pubkey) authors))
              (any (starts_with e.pubkey)) f.authors
              (λ authors. not-not (any (starts_with e.pubkey) authors)),
          some_prefix_lem e.id f.ids,
          some_prefix_lem e.pubkey f.authors,
        )
        refl

insert_row-Holds : (e : Event) → Holds (insert_row e) e
unfolding insert_row
insert_row-Holds e = record {
  id = refl;
  pubkey = refl;
  kind = refl;
  created_at = refl;
  tags = refl;
}

upsert_row-Holds : (e : Event) → Holds (upsert_row e) e
unfolding upsert_row
upsert_row-Holds e = record {
  id = refl;
  pubkey = refl;
  kind = refl;
  created_at = refl;
  tags = refl;
}

-- The query of a filter selects the row of an event, inserted or upserted, exactly when
-- `isEventMatchingFilter` accepts the event. The filter is one that the schemas let through (its
-- prefixes are at most 64 hex digits, and no criterion is empty), with an entry for at most one
-- letter; the event has an id and an author of 64 hex digits, and tags that have no character that
-- JSON escapes. The database is assumed to read `\x` and hex digits as the bytes that they spell.
pub is_selected-is_event_matching_filter :
    (pg : Postgres) (f : SubscriptionFilter) (e : Event)
    → ReadsHex pg
    → IsSimple f
    → IsStorable pg e
    → (is_selected pg (build_query f) (insert_row e) ≡ is_event_matching_filter f e)
      × (is_selected pg (build_query f) (upsert_row e) ≡ is_event_matching_filter f e)
is_selected-is_event_matching_filter pg f e reads simple storable =
    let match = sym (is_event_matching_filter_lem f e) in
    (
      selected pg reads f e (insert_row e) simple storable (insert_row-Holds e) ∙ match,
      selected pg reads f e (upsert_row e) simple storable (upsert_row-Holds e) ∙ match,
    )

all_at {ℓ κ} :
    {A : Type ℓ} (Q : A → Type κ) (p : A → Bool) (xs : List A)
    → all p xs ≡ true
    → Any Q xs
    → (x : A) × Q x × (p x ≡ true)
all_at Q p _ h (here {x} q) = (x, q, ground arith)
all_at Q p _ h (there {x} {xs} a) = all_at Q p xs (ground arith) a

any-false {ℓ} :
    {A : Type ℓ} (p : A → Bool) (xs : List A) → ((x : A) → p x ≡ false) → any p xs ≡ false
any-false p [] h = refl
any-false p (x ∷ xs) h = rw (h x) (any-false p xs h)

-- The filter has an entry for the letter.
abbrev pub AsksFor : ℕ → SubscriptionFilter → Type 0
AsksFor letter f = Any (λ (key, _). key ≡ b'#' ∷ letter ∷ []) (tag_queries f)

-- One row of `event_tags` has one name.
named :
    (pg : Postgres) (row : DbEvent) (tag : JoinedTag) (letter : ℕ) (entry : Text × List Text)
    → entry.0 ≡ b'#' ∷ letter ∷ []
    → group_holds pg row tag (tag_group entry) ≡ true
    → (v : Text) × (tag ≡ some (letter ∷ [], v))
named pg row none letter (key, criteria) e h =
    absurd (ground (arith, group_holds-tag_group-none pg row letter criteria))
named pg row (some (n, v)) letter (key, criteria) e h =
    let k : group_holds pg row (some (n, v)) (tag_group (b'#' ∷ letter ∷ [], criteria)) ≡ true =
      rw e at h in
    let c : carries (letter ∷ []) criteria (n, v) ≡ true =
      sym (group_holds-tag_group pg row letter criteria n v) ∙ k in
    (v, ap (λ m. some (m, v)) ((===_iff n (letter ∷ [])).0 (ground arith)))

tag_groups_hold :
    (pg : Postgres) (f : SubscriptionFilter) (row : DbEvent) (tag : JoinedTag)
    → all (group_holds pg row tag) (build_query f).groups ≡ true
    → all (λ entry. group_holds pg row tag (tag_group entry)) (tag_queries f) ≡ true
unfolding build_query
tag_groups_hold pg f row tag h =
    let p = group_holds pg row tag in
    let tags = map tag_group (tag_queries f) in
    let until = group_if created_until f.until in
    let since = group_if created_from f.since in
    let kinds = group_if kind_in f.kinds in
    ground (
      arith,
      h,
      all-append p kinds (since ++ (until ++ tags)),
      all-append p since (until ++ tags),
      all-append p until tags,
      all-map p tag_group (tag_queries f),
    )

-- A filter with entries for two letters selects no row at all: its conditions are asked of one row
-- of `event_tags`, which has one name.
pub is_selected-two_letters :
    (pg : Postgres) (f : SubscriptionFilter) (row : DbEvent) (a b : ℕ)
    → AsksFor a f
    → AsksFor b f
    → a ≢ b
    → is_selected pg (build_query f) row ≡ false
unfolding is_selected
is_selected-two_letters pg f row a b for_a for_b different =
    any-false (λ tag. all (group_holds pg row tag) (build_query f).groups)
      (joined_tags pg (build_query f) row)
      λ tag. elim (Bool-cases (all (group_holds pg row tag) (build_query f).groups)) [
        | inr fails ↦ fails
        | inl hold ↦
            let h = tag_groups_hold pg f row tag hold in
            let (x, x_key, x_holds) = all_at _ _ (tag_queries f) h for_a in
            let (y, y_key, y_holds) = all_at _ _ (tag_queries f) h for_b in
            let (v, p) = named pg row tag a x x_key x_holds in
            let (w, q) = named pg row tag b y y_key y_holds in absurd (different (ground arith))
      ]
