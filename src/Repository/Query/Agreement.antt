-- ===== src/Repository/Query/Agreement.antt =====
-- What the query of `findByFilters` in src/repositories/event-repository.ts asks of a row that holds
-- an event, group by group.
use nostream.Prelude.{
  ℕ, ◌≡◌, refl, ap, ◌∙◌, inl, inr, Bool, true, false, not, ◌&&◌, ◌||◌, Option, none, some, List, [],
  ◌∷◌, ◌++◌, map, arith, leb, if◌then◌else◌, any, all, filter, All, Bool-cases,
}
use nostream.Prelude.Text.{Text, includes_number}
use nostream.Bytes.{to_buffer}
use nostream.Event.{Event, SubscriptionFilter}
use nostream.Event.Filters.{is_generic_tag_query, is_tag_matching, is_entry_missed}
use nostream.Event.Filters.Match.{is_generic_tag_query_sound}
use nostream.Repository.{DbEvent}
use nostream.Repository.Query.{
  Condition, kind_in, created_from, created_until, event_id, event_pubkey, tag_group, tag_queries,
  group_if, build_query, Postgres, JoinedTag, holds, group_holds, left_join, process_event_tags,
  joined_tags, is_selected, is_filled,
}
use nostream.Repository.Query.Prefixes.{IsKey, ReadsHex}
use nostream.Repository.Query.Groups.{some_prefix, ArePrefixes, group_holds-prefix_group}
use nostream.Repository.Query.Tags.{
  ArePlain, NotEmpty, carries, any-left_join, any-process_event_tags,
}

-- A row that holds the event, whatever the columns that queries do not read.
pub record Holds (row : DbEvent) (e : Event) : Type 0 where
  pub id : row.event_id ≡ to_buffer e.id
  pub pubkey : row.event_pubkey ≡ to_buffer e.pubkey
  pub kind : row.event_kind ≡ e.kind
  pub created_at : row.event_created_at ≡ e.created_at
  pub tags : row.event_tags ≡ e.tags

-- An event as the schemas let it through, whose tags have no character that JSON escapes.
pub record IsStorable (pg : Postgres) (e : Event) : Type 0 where
  pub id : IsKey e.id
  pub pubkey : IsKey e.pubkey
  pub tags : ArePlain pg e.tags

-- At most one entry, all of whose criteria are texts that are not empty.
abbrev pub AtMostOne : List (Text × List Text) → Type 0
AtMostOne [] = Unit
AtMostOne ((key, criteria) ∷ []) = All NotEmpty criteria
AtMostOne (_ ∷ _ ∷ _) = ⊥

-- A filter as the schemas let it through, with an entry for at most one letter.
pub record IsSimple (f : SubscriptionFilter) : Type 0 where
  pub ids : ArePrefixes f.ids
  pub authors : ArePrefixes f.authors
  pub entries : AtMostOne (tag_queries f)

pub all-append {ℓ} :
    {A : Type ℓ} (p : A → Bool) (xs ys : List A) → all p (xs ++ ys) ≡ (all p xs && all p ys)
all-append p [] ys = refl
all-append p (x ∷ xs) ys = ground (arith, all-append p xs ys)

-- A test that the member has no part in.
any-and {ℓ} :
    {A : Type ℓ} (b : Bool) (p : A → Bool) (xs : List A) → any (λ x. b && p x) xs ≡ (b && any p xs)
any-and b p [] = ground arith
any-and b p (x ∷ xs) = ground (arith, any-and b p xs)

any-cong {ℓ} :
    {A : Type ℓ} (p q : A → Bool) (xs : List A) → ((x : A) → p x ≡ q x) → any p xs ≡ any q xs
any-cong p q [] h = refl
any-cong p q (x ∷ xs) h = rw (h x, any-cong p q xs h) refl

pub all-map {ℓ κ} :
    {A : Type ℓ} {B : Type κ} (p : B → Bool) (f : A → B) (xs : List A)
    → all p (map f xs) ≡ all (λ x. p (f x)) xs
all-map p f [] = refl
all-map p f (x ∷ xs) = ap (λ b. p (f x) && b) (all-map p f xs)

filter-All {ℓ} : {A : Type ℓ} (p : A → Bool) (xs : List A) → All (λ x. p x ≡ true) (filter p xs)
filter-All p [] = tt
filter-All p (x ∷ xs) = elim (Bool-cases (p x)) [
  | inl kept ↦ rw kept (kept, filter-All p xs)
  | inr dropped ↦ rw dropped (filter-All p xs)
]

-- A criterion of one condition.
abbrev pub asked {ℓ} : {A : Type ℓ} → (A → Bool) → Option A → Bool
asked p none = true
asked p (some a) = p a

module _ (pg : Postgres) (row : DbEvent) (tag : JoinedTag) where
  all-group_if {ℓ} :
      {A : Type ℓ} (condition : A → Condition) (o : Option A)
      → all (group_holds pg row tag) (group_if condition o)
        ≡ asked (λ a. holds pg row tag (condition a)) o
  unfolding group_holds
  all-group_if condition none = refl
  all-group_if condition (some a) = ground arith

-- The groups that the joined tag has no part in.
abbrev pub fixed_part : SubscriptionFilter → Event → Bool
fixed_part f e =
    some_prefix e.pubkey f.authors
    && (some_prefix e.id f.ids
        && (asked (includes_number e.kind) f.kinds
            && (asked (λ since. leb since e.created_at) f.since
                && asked (λ until. leb e.created_at until) f.until)))

and_true : (a : Bool) → (a && true) ≡ a
and_true a = ground arith

not_twice : (a : Bool) → a ≡ not (not a || false)
not_twice a = ground arith

group_five :
    (a b c d e g : Bool)
    → (a && (b && (c && (d && (e && g))))) ≡ ((a && (b && (c && (d && e)))) && g)
group_five a b c d e g = ground arith

module _ (pg : Postgres) (reads : ReadsHex pg) (f : SubscriptionFilter) (e : Event) (row : DbEvent)
    (simple : IsSimple f) (storable : IsStorable pg e) (held : Holds row e) where
  kinds_part :
      (tag : JoinedTag) (o : Option (List ℕ))
      → asked (λ a. holds pg row tag (kind_in a)) o ≡ asked (includes_number e.kind) o
  unfolding holds
  kinds_part tag none = refl
  kinds_part tag (some kinds) = ap (λ k. includes_number k kinds) held.kind

  since_part :
      (tag : JoinedTag) (o : Option ℕ)
      → asked (λ a. holds pg row tag (created_from a)) o ≡ asked (λ since. leb since e.created_at) o
  unfolding holds
  since_part tag none = refl
  since_part tag (some since) = ap (leb since) held.created_at

  until_part :
      (tag : JoinedTag) (o : Option ℕ)
      → asked (λ a. holds pg row tag (created_until a)) o
        ≡ asked (λ until. leb e.created_at until) o
  unfolding holds
  until_part tag none = refl
  until_part tag (some until) = ap (λ t. leb t until) held.created_at

  criteria_part :
      (tag : JoinedTag)
      → all (group_holds pg row tag) (
          group_if kind_in f.kinds
          ++ (group_if created_from f.since
              ++ (group_if created_until f.until ++ map tag_group (tag_queries f))))
        ≡ (asked (includes_number e.kind) f.kinds
            && (asked (λ since. leb since e.created_at) f.since
                && (asked (λ until. leb e.created_at until) f.until
                    && all (λ entry. group_holds pg row tag (tag_group entry)) (tag_queries f))))
  criteria_part tag =
      let p = group_holds pg row tag in
      let tags = map tag_group (tag_queries f) in
      let until = group_if created_until f.until in
      let since = group_if created_from f.since in
      rw
        (
          all-append p (group_if kind_in f.kinds) (since ++ (until ++ tags)),
          all-append p since (until ++ tags),
          all-append p until tags,
          all-group_if pg row tag kind_in f.kinds,
          all-group_if pg row tag created_from f.since,
          all-group_if pg row tag created_until f.until,
          kinds_part tag f.kinds,
          since_part tag f.since,
          until_part tag f.until,
          all-map p tag_group (tag_queries f),
        )
        refl

  all-groups :
      (tag : JoinedTag)
      → all (group_holds pg row tag) (build_query f).groups ≡ (
          fixed_part f e && all (λ entry. group_holds pg row tag (tag_group entry)) (tag_queries f))
  unfolding build_query
  all-groups tag =
      let authors =
        group_holds-prefix_group pg row tag event_pubkey e.pubkey f.authors reads storable.pubkey
          held.pubkey simple.authors in
      let ids =
        group_holds-prefix_group pg row tag event_id e.id f.ids reads storable.id held.id
          simple.ids in
      rw (authors, ids, criteria_part tag)
        (group_five (some_prefix e.pubkey f.authors) (some_prefix e.id f.ids)
          (asked (includes_number e.kind) f.kinds) (asked (λ since. leb since e.created_at) f.since)
          (asked (λ until. leb e.created_at until) f.until)
          (all (λ entry. group_holds pg row tag (tag_group entry)) (tag_queries f)))

  entry_part :
      (letter : ℕ) (criteria : List Text)
      → All NotEmpty criteria
      → any
          (λ tag. group_holds pg row tag (tag_group (b'#' ∷ letter ∷ [], criteria)) && true)
          (left_join (process_event_tags pg row.event_tags))
        ≡ not (is_entry_missed e (b'#' ∷ letter ∷ [], criteria) || false)
  unfolding is_entry_missed
  entry_part letter criteria filled =
      any-cong _ (λ tag. group_holds pg row tag (tag_group (b'#' ∷ letter ∷ [], criteria)))
        (left_join (process_event_tags pg row.event_tags)) (λ tag. and_true _)
      ∙ any-left_join pg row letter criteria (process_event_tags pg row.event_tags)
      ∙ ap (λ tags. any (carries (letter ∷ []) criteria) (process_event_tags pg tags)) held.tags
      ∙ any-process_event_tags pg row letter criteria e.tags filled storable.tags
      ∙ not_twice (any (is_tag_matching (b'#' ∷ letter ∷ []) criteria) e.tags)

  entries_part :
      (entries : List (Text × List Text))
      → AtMostOne entries
      → All (λ (key, _). is_generic_tag_query key ≡ true) entries
      → any
          (λ tag. all (λ entry. group_holds pg row tag (tag_group entry)) entries)
          (if is_filled entries
            then left_join (process_event_tags pg row.event_tags)
            else none ∷ [])
        ≡ not (any (is_entry_missed e) entries)
  entries_part [] one generic = refl
  entries_part ((key, criteria) ∷ []) filled (generic, _) =
      let (letter, k, _) = is_generic_tag_query_sound key generic in
      rw k (entry_part letter criteria filled)
  entries_part (_ ∷ _ ∷ _) many generic = absurd many

  pub selected :
      is_selected pg (build_query f) row
      ≡ (fixed_part f e && not (any (is_entry_missed e) (tag_queries f)))
  unfolding is_selected joined_tags tag_queries
  selected =
      let tags = joined_tags pg (build_query f) row in
      any-cong _
        (λ tag.
          fixed_part f e && all (λ entry. group_holds pg row tag (tag_group entry)) (tag_queries f))
        tags all-groups
      ∙ any-and (fixed_part f e)
          (λ tag. all (λ entry. group_holds pg row tag (tag_group entry)) (tag_queries f)) tags
      ∙ ap (λ b. fixed_part f e && b)
          (unfold build_query in
            entries_part (tag_queries f) simple.entries
              (filter-All (λ (key, _). is_generic_tag_query key) f.generic))
