-- ===== src/Event/Filters/Match.antt =====
-- `isEventMatchingFilter` against a description of the events that a filter asks for.
use nostream.Prelude.{
  ℕ, ◌≤◌, ◌≡◌, refl, ◌↔◌, ◌⊎◌, inl, inr, Bool, true, false, not, Option, none, some, List, [], ◌∷◌,
  arith, if◌then◌else◌, ltb, any, filter, get_elem?, Any, All, any_iff, Bool-cases,
}
use nostream.Prelude.Text.{
  Text, HasPrefix, starts_with, starts_with_iff, includes_iff, includes_number, includes_number_iff,
  is_text_iff,
}
use nostream.Event.{Tag, Event, SubscriptionFilter}
use nostream.Event.Filters.{
  is_event_matching_filter, is_generic_tag_query, is_letter, is_tag_matching, is_entry_missed,
  present_and, is_matching_any,
}

-- What an optional criterion asks for; an absent one asks for nothing.
abbrev pub Present {ℓ} : {A : Type ℓ} → (A → Type 0) → Option A → Type 0
Present P none = Unit
Present P (some a) = P a

abbrev pub IsLetter : ℕ → Type 0
IsLetter c = ((b'a' ≤ c) × (c ≤ b'z')) ⊎ ((b'A' ≤ c) × (c ≤ b'Z'))

-- The tag is named by the letter, and its first value is one of the criteria.
abbrev pub Carries : ℕ → List Text → Tag → Type 0
Carries letter criteria tag =
    (v : Text) × (get_elem? tag 0 ≡ some (letter ∷ []))
    × (get_elem? tag 1 ≡ some v)
    × Any (λ w. w ≡ v) criteria

-- An entry `#x` asks for an event with such a tag. Entries under other keys ask for nothing.
abbrev pub EntryMatches : Event → Text × List Text → Type 0
EntryMatches event (key, criteria) =
    (letter : ℕ)
    → key ≡ b'#' ∷ letter ∷ []
    → IsLetter letter
    → Any (Carries letter criteria) event.tags

pub record Matches (f : SubscriptionFilter) (event : Event) : Type 0 where
  pub ids : Present (λ ids. Any (HasPrefix event.id) ids) f.ids
  pub kinds : Present (λ kinds. Any (λ k. k ≡ event.kind) kinds) f.kinds
  pub since : Present (λ since. since ≤ event.created_at) f.since
  pub until : Present (λ until. event.created_at ≤ until) f.until
  pub authors : Present (λ authors. Any (HasPrefix event.pubkey) authors) f.authors
  pub tags : All (EntryMatches event) f.generic

present_and_iff {ℓ} :
    {A : Type ℓ} (P : A → Type 0) (p : A → Bool) (o : Option A)
    → ((a : A) → (p a ≡ false) ↔ P a)
    → (present_and p o ≡ false) ↔ Present P o
present_and_iff P p none h = (λ _. tt, λ _. refl)
present_and_iff P p (some a) h = h a

not_iff_of : (b : Bool) {P : Type 0} → ((b ≡ true) ↔ P) → (not b ≡ false) ↔ P
not_iff_of true h = (λ _. h.0 refl, λ _. refl)
not_iff_of false h = (λ e. absurd (ground arith), λ p. absurd (ground (arith, h.1 p)))

is_tag_matching_iff :
    (letter : ℕ) (criteria : List Text) (tag : Tag)
    → (is_tag_matching (b'#' ∷ letter ∷ []) criteria tag ≡ true) ↔ Carries letter criteria tag
unfolding is_tag_matching
is_tag_matching_iff letter criteria [] =
    (λ h. absurd (ground arith), λ (v, e, _, _). absurd (ground arith))
is_tag_matching_iff letter criteria (name ∷ []) =
    (λ h. absurd (ground arith), λ (v, _, e, _). absurd (ground arith))
is_tag_matching_iff letter criteria (name ∷ v ∷ rest) =
    let name_iff = is_text_iff (some name) (letter ∷ []) in
    let value_iff = includes_iff v criteria in
    (
      λ h. (v, name_iff.0 (ground arith), refl, value_iff.0 (ground arith)),
      λ (w, e, same, found).
          let w_is_v : v ≡ w = ground arith in
          ground (arith, name_iff.1 e, value_iff.1 (rw w_is_v found)),
    )

pub is_generic_tag_query_sound :
    (key : Text)
    → is_generic_tag_query key ≡ true
    → (letter : ℕ) × (key ≡ b'#' ∷ letter ∷ []) × IsLetter letter
unfolding is_generic_tag_query
is_generic_tag_query_sound [] h = absurd (ground arith)
is_generic_tag_query_sound (a ∷ []) h = absurd (ground arith)
is_generic_tag_query_sound (a ∷ c ∷ []) h = (c, ground arith, ground arith)
is_generic_tag_query_sound (a ∷ c ∷ d ∷ r) h = absurd (ground arith)

is_generic_tag_query_complete :
    (letter : ℕ) → IsLetter letter → is_generic_tag_query (b'#' ∷ letter ∷ []) ≡ true
unfolding is_generic_tag_query
is_generic_tag_query_complete letter h = ground arith

entry_missed_iff :
    (event : Event) (letter : ℕ) (criteria : List Text)
    → (is_entry_missed event (b'#' ∷ letter ∷ [], criteria) ≡ false)
      ↔ Any (Carries letter criteria) event.tags
unfolding is_entry_missed
entry_missed_iff event letter criteria = not_iff_of _ (
    any_iff (Carries letter criteria) (is_tag_matching (b'#' ∷ letter ∷ []) criteria)
      (is_tag_matching_iff letter criteria) event.tags)

-- The filtered entries that are missed, against what all entries ask for.
entries_sound :
    (event : Event) (entries : List (Text × List Text))
    → any (is_entry_missed event) (filter (λ (key, _). is_generic_tag_query key) entries) ≡ false
    → All (EntryMatches event) entries
entries_sound event [] h = tt
entries_sound event ((key, criteria) ∷ entries) h = (
  λ letter e is_letter.
      let generic : is_generic_tag_query key ≡ true =
        rw e (is_generic_tag_query_complete letter is_letter) in
      let found : is_entry_missed event (key, criteria) ≡ false = ground arith in
      (entry_missed_iff event letter criteria).0 (rw e at found),
  entries_sound event entries (ground arith),
)

entries_complete :
    (event : Event) (entries : List (Text × List Text))
    → All (EntryMatches event) entries
    → any (is_entry_missed event) (filter (λ (key, _). is_generic_tag_query key) entries) ≡ false
entries_complete event [] h = refl
entries_complete event ((key, criteria) ∷ entries) (m, ms) =
    elim (Bool-cases (is_generic_tag_query key)) [
      | inl generic ↦
          let (letter, e, is_letter) = is_generic_tag_query_sound key generic in
          let found = (entry_missed_iff event letter criteria).1 (m letter e is_letter) in
          let found' : is_entry_missed event (key, criteria) ≡ false = rw e found in
          ground (arith, found', entries_complete event entries ms)
      | inr other ↦ ground (arith, entries_complete event entries ms)
    ]

guards_iff :
    (a b c d e f : Bool)
    → ((if a
          then false
          else if b
          then false
          else if c
          then false
          else if d
          then false
          else if e
          then false
          else if f
          then false
          else true)
        ≡ true)
      ↔ ((a ≡ false) × (b ≡ false) × (c ≡ false) × (d ≡ false) × (e ≡ false) × (f ≡ false))
guards_iff a b c d e f = ground arith

module _ (f : SubscriptionFilter) (event : Event) where
  ids_iff :
      (present_and (λ ids. not (any (starts_with event.id) ids)) f.ids ≡ false)
      ↔ Present (λ ids. Any (HasPrefix event.id) ids) f.ids
  ids_iff =
      present_and_iff _ _ f.ids
        λ ids. not_iff_of _ (any_iff _ (starts_with event.id) (starts_with_iff event.id) ids)

  authors_iff :
      (present_and (λ authors. not (any (starts_with event.pubkey) authors)) f.authors ≡ false)
      ↔ Present (λ authors. Any (HasPrefix event.pubkey) authors) f.authors
  authors_iff =
      present_and_iff _ _ f.authors λ ids.
        not_iff_of _ (any_iff _ (starts_with event.pubkey) (starts_with_iff event.pubkey) ids)

  kinds_iff :
      (present_and (λ kinds. not (includes_number event.kind kinds)) f.kinds ≡ false)
      ↔ Present (λ kinds. Any (λ k. k ≡ event.kind) kinds) f.kinds
  kinds_iff =
      present_and_iff _ _ f.kinds λ kinds. not_iff_of _ (includes_number_iff event.kind kinds)

  since_iff :
      (present_and (λ since. ltb event.created_at since) f.since ≡ false)
      ↔ Present (λ since. since ≤ event.created_at) f.since
  since_iff = present_and_iff _ _ f.since λ since. (λ h. ground arith, λ h. ground arith)

  until_iff :
      (present_and (λ until. ltb until event.created_at) f.until ≡ false)
      ↔ Present (λ until. event.created_at ≤ until) f.until
  until_iff = present_and_iff _ _ f.until λ until. (λ h. ground arith, λ h. ground arith)

  -- `isEventMatchingFilter` accepts an event exactly when, for each criterion that the filter has,
  -- the event fulfils it: its id (author) starts with one of the listed prefixes, its kind is
  -- listed, its time lies between `since` and `until`, ends included, and for each entry `#x`, x a
  -- letter, it has a tag x whose first value is listed.
  pub is_event_matching_filter_iff : (is_event_matching_filter f event ≡ true) ↔ Matches f event
  unfolding is_event_matching_filter
  is_event_matching_filter_iff = (
    λ h.
        let (a, b, c, d, e, g) = (guards_iff _ _ _ _ _ _).0 h in
        record {
          ids = ids_iff.0 a;
          kinds = kinds_iff.0 b;
          since = since_iff.0 c;
          until = until_iff.0 d;
          authors = authors_iff.0 e;
          tags = entries_sound event f.generic g;
        },
    λ m. (guards_iff _ _ _ _ _ _).1 (
      ids_iff.1 m.ids,
      kinds_iff.1 m.kinds,
      since_iff.1 m.since,
      until_iff.1 m.until,
      authors_iff.1 m.authors,
      entries_complete event f.generic m.tags,
    ),
  )

-- A subscription gets an event exactly when the event matches one of its filters.
pub is_matching_any_iff :
    (filters : List SubscriptionFilter) (event : Event)
    → (is_matching_any filters event ≡ true) ↔ Any (λ f. Matches f event) filters
unfolding is_matching_any
is_matching_any_iff filters event =
    any_iff (λ f. Matches f event) (λ f. is_event_matching_filter f event)
      (λ f. is_event_matching_filter_iff f event) filters
