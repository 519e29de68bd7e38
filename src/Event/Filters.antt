-- ===== src/Event/Filters.antt =====
-- `isEventMatchingFilter` of src/utils/event.ts and `isGenericTagQuery` of src/utils/filter.ts.
pub mod Match
use nostream.Prelude.{
  ℕ, Bool, true, false, not, ◌&&◌, ◌||◌, Option, none, some, List, [], ◌∷◌, leb, ltb, ◌==◌,
  if◌then◌else◌, any, filter, get_elem?,
}
use nostream.Prelude.Text.{Text, starts_with, includes, includes_number, is_text}
use nostream.Event.{Tag, Event, SubscriptionFilter}

abbrev is_letter : ℕ → Bool
is_letter c = (leb b'a' c && leb c b'z') || (leb b'A' c && leb c b'Z')

-- `/^#[a-zA-Z]$/`
unfoldable pub is_generic_tag_query : Text → Bool
is_generic_tag_query (hash ∷ c ∷ []) = hash == b'#' && is_letter c
is_generic_tag_query _ = false

-- `key[1]`, as a text of one code unit.
abbrev pub key_letter : Text → Option Text
key_letter key = elim (get_elem? key 1) [ none ↦ none | some c ↦ some (c ∷ []) ]

-- `tag[0] === key[1]`; either may be `undefined`.
abbrev same_text : Option Text → Option Text → Bool
same_text none none = true
same_text (some t) none = false
same_text o (some s) = is_text o s

-- `criteria.includes(tag[1])`
abbrev includes_value : List Text → Option Text → Bool
includes_value criteria none = false
includes_value criteria (some v) = includes v criteria

unfoldable pub is_tag_matching : Text → List Text → Tag → Bool
is_tag_matching key criteria tag =
    same_text (get_elem? tag 0) (key_letter key) && includes_value criteria (get_elem? tag 1)

-- The entries that some criterion of theirs rejects.
unfoldable pub is_entry_missed : Event → Text × List Text → Bool
unfolding is_tag_matching
is_entry_missed event (key, criteria) = not (any (is_tag_matching key criteria) event.tags)

-- `Array.isArray(o) && !p(o)`, `typeof o === "number" && p(o)`
abbrev pub present_and {ℓ} : {A : Type ℓ} → (A → Bool) → Option A → Bool
present_and p none = false
present_and p (some a) = p a

unfoldable pub is_event_matching_filter : SubscriptionFilter → Event → Bool
unfolding is_entry_missed is_generic_tag_query
is_event_matching_filter f event =
    if present_and (λ ids. not (any (starts_with event.id) ids)) f.ids
    then false
    else if present_and (λ kinds. not (includes_number event.kind kinds)) f.kinds
    then false
    else if present_and (λ since. ltb event.created_at since) f.since
    then false
    else if present_and (λ until. ltb until event.created_at) f.until
    then false
    else if present_and (λ authors. not (any (starts_with event.pubkey) authors)) f.authors
    then false
    else if any (is_entry_missed event) (filter (λ (key, _). is_generic_tag_query key) f.generic)
    then false
    else true

-- Some filter of a subscription matches: `anyPass(map(isEventMatchingFilter)(filters))`.
unfoldable pub is_matching_any : List SubscriptionFilter → Event → Bool
is_matching_any filters event = any (λ f. is_event_matching_filter f event) filters
