-- ===== src/Repository/Query.antt =====
-- The query that `findByFilters` of src/repositories/event-repository.ts builds, and what SQL makes
-- of it. Conditions on `events` and `event_tags` are data; a group of them is one call of
-- `andWhere`, whose conditions are joined by OR.
pub mod Prefixes
pub mod Groups
pub mod Tags
pub mod Agreement
pub mod Selected
use nostream.Prelude.{
  ℕ, suc, ◌+◌, ◌/◌, ◌%◌, Bool, true, false, ◌&&◌, ◌||◌, Option, none, some, List, [], ◌∷◌, ◌++◌,
  map, leb, ltb, ◌==◌, if◌then◌else◌, length, take, any, all, filter, concat_map, get_or_default,
  get_elem?,
}
use nostream.Prelude.Text.{Text, text, ◌===◌, includes_number}
use nostream.Action.{Outcome, done, failed, error}
use nostream.Bytes.{to_buffer}
use nostream.Event.{Tag, SubscriptionFilter}
use nostream.Event.Filters.{is_generic_tag_query, key_letter}
use nostream.Repository.{DbEvent}

-- The two columns that prefixes are compared with.
pub data Column : Type 0 where
  event_id : Column
  event_pubkey : Column

pub data Condition : Type 0 where
  -- `1 = 0`
  never : Condition
  in_values : Column → List (List ℕ) → Condition
  -- `substring(column from 1 for n) = value`
  starts_as : Column → ℕ → List ℕ → Condition
  -- `substring(column from 1 for n) BETWEEN low AND high`
  starts_between : Column → ℕ → Text → Text → Condition
  kind_in : List ℕ → Condition
  created_from : ℕ → Condition
  created_until : ℕ → Condition
  -- `event_tags.tag_name = ? AND event_tags.tag_value = ?`
  tag_is : Text → Text → Condition

pub data Order : Type 0 where
  newest_first : Order
  oldest_first : Order

pub record Query : Type 0 where
  pub groups : List (List Condition)
  pub limit : ℕ
  pub order : Order
  -- with a left join of `event_tags` on the event's id
  pub is_joined : Bool

pub data LengthGroup : Type 0 where
  exact : LengthGroup
  even : LengthGroup
  odd : LengthGroup

unfoldable pub length_group : Text → LengthGroup
length_group s = if length s == 64 then exact else if length s % 2 == 0 then even else odd

abbrev pub is_same_group : LengthGroup → LengthGroup → Bool
is_same_group exact exact = true
is_same_group even even = true
is_same_group odd odd = true
is_same_group _ _ = false

-- An object of `groupBy`: its keys in the order in which they came.
abbrev pub Groups : Type 0
Groups = List (LengthGroup × List Text)

unfoldable pub add_to_group : LengthGroup → Text → Groups → Groups
add_to_group g s [] = (g, s ∷ []) ∷ []
add_to_group g s ((h, texts) ∷ groups) =
    let rest = add_to_group g s groups in
    if is_same_group g h then (h, texts ++ s ∷ []) ∷ groups else (h, texts) ∷ rest

unfoldable pub group_by_length : Groups → List Text → Groups
group_by_length groups [] = groups
group_by_length groups (s ∷ texts) = group_by_length (add_to_group (length_group s) s groups) texts

unfoldable pub even_condition : Text → Column → Condition
even_condition prefix column = starts_as column (length prefix / 2) (to_buffer prefix)

unfoldable pub odd_condition : Text → Column → Condition
odd_condition prefix column =
    starts_between column (length prefix / 2 + 1) (text "\\x" ++ (prefix ++ text "0"))
      (text "\\x" ++ (prefix ++ text "f"))

unfoldable pub group_conditions : List Column → LengthGroup × List Text → List Condition
group_conditions columns (exact, prefixes) =
    map (λ column. in_values column (map to_buffer prefixes)) columns
group_conditions columns (even, prefixes) =
    concat_map (λ prefix. map (even_condition prefix) columns) prefixes
group_conditions columns (odd, prefixes) =
    concat_map (λ prefix. map (odd_condition prefix) columns) prefixes

-- `cond` runs nothing where the criterion is absent, which leaves a group with no condition.
unfoldable pub prefix_group : List Column → Option (List Text) → List Condition
prefix_group columns none = []
prefix_group columns (some []) = never ∷ []
prefix_group columns (some (p ∷ prefixes)) =
    concat_map (group_conditions columns) (group_by_length [] (p ∷ prefixes))

-- A call on the builder where the criterion is present.
abbrev pub group_if {ℓ} : {A : Type ℓ} → (A → Condition) → Option A → List (List Condition)
group_if condition none = []
group_if condition (some a) = (condition a ∷ []) ∷ []

unfoldable pub tag_group : Text × List Text → List Condition
tag_group (key, []) = never ∷ []
tag_group (key, c ∷ criteria) = map (tag_is (get_or_default [] (key_letter key))) (c ∷ criteria)

unfoldable pub tag_queries : SubscriptionFilter → List (Text × List Text)
tag_queries f = filter (λ (key, _). is_generic_tag_query key) f.generic

abbrev pub is_filled {ℓ} : {A : Type ℓ} → List A → Bool
is_filled [] = false
is_filled (x ∷ xs) = true

abbrev pub order_of : Option ℕ → Order
order_of none = oldest_first
order_of (some limit) = newest_first

unfoldable pub build_query : SubscriptionFilter → Query
build_query f = record {
  groups =
      prefix_group (event_pubkey ∷ []) f.authors
      ∷ prefix_group (event_id ∷ []) f.ids
      ∷ (group_if kind_in f.kinds
          ++ (group_if created_from f.since
              ++ (group_if created_until f.until ++ map tag_group (tag_queries f))));
  limit = get_or_default 500 f.limit;
  order = order_of f.limit;
  is_joined = is_filled (tag_queries f);
}

-- The first query, and those that it is united with.
unfoldable pub find_by_filters : List SubscriptionFilter → Outcome (Query × List Query)
find_by_filters [] = failed (error (text "Filters cannot be empty"))
find_by_filters (f ∷ filters) = done (build_query f, map build_query filters)

-- What the database is asked for: the bytes that a text stands for where a column of bytes is
-- expected, and `trim((x)::text, '"')` of a JSON string.
pub record Postgres : Type 0 where
  pub bytea : Text → List ℕ
  pub trimmed : Text → Text

abbrev pub column : Column → DbEvent → List ℕ
column event_id row = row.event_id
column event_pubkey row = row.event_pubkey

-- Bytes in the order of the database: the first byte that differs decides.
unfoldable pub leb_bytes : List ℕ → List ℕ → Bool
leb_bytes [] _ = true
leb_bytes (_ ∷ _) [] = false
leb_bytes (a ∷ s) (b ∷ t) = ltb a b || (a == b && leb_bytes s t)

-- The tag that a row is joined with, if it is.
abbrev pub JoinedTag : Type 0
JoinedTag = Option (Text × Text)

abbrev pub is_joined_tag : Text → Text → JoinedTag → Bool
is_joined_tag name value none = false
is_joined_tag name value (some (n, v)) = n === name && v === value

unfoldable pub holds : Postgres → DbEvent → JoinedTag → Condition → Bool
holds pg row tag never = false
holds pg row tag (in_values c values) = any (λ value. column c row === value) values
holds pg row tag (starts_as c n value) = take n (column c row) === value
holds pg row tag (starts_between c n low high) =
    leb_bytes (pg.bytea low) (take n (column c row))
    && leb_bytes (take n (column c row)) (pg.bytea high)
holds pg row tag (kind_in kinds) = includes_number row.event_kind kinds
holds pg row tag (created_from since) = leb since row.event_created_at
holds pg row tag (created_until until) = leb row.event_created_at until
holds pg row tag (tag_is name value) = is_joined_tag name value tag

-- A group with no condition asks for nothing.
unfoldable pub group_holds : Postgres → DbEvent → JoinedTag → List Condition → Bool
group_holds pg row tag [] = true
group_holds pg row tag (c ∷ conditions) = any (holds pg row tag) (c ∷ conditions)

-- `length(tag_name) = 1 AND tag_value IS NOT NULL AND tag_value <> ''`
abbrev pub is_indexed : Text → Text → Bool
is_indexed name value = length name == 1 && is_filled value

-- What the trigger `process_event_tags` of migrations/20240108_130100_add_event_tags_table.js keeps
-- of a tag.
unfoldable pub indexed_tags : Postgres → Tag → List (Text × Text)
indexed_tags pg [] = []
indexed_tags pg (name ∷ []) = []
indexed_tags pg (name ∷ value ∷ _) =
    if is_indexed (pg.trimmed name) (pg.trimmed value)
    then (pg.trimmed name, pg.trimmed value) ∷ []
    else []

unfoldable pub process_event_tags : Postgres → List Tag → List (Text × Text)
process_event_tags pg tags = concat_map (indexed_tags pg) tags

-- The left join of a row: with each of its tags, or with nothing where it has none.
unfoldable pub left_join : List (Text × Text) → List JoinedTag
left_join [] = none ∷ []
left_join (t ∷ tags) = map some (t ∷ tags)

unfoldable pub joined_tags : Postgres → Query → DbEvent → List JoinedTag
joined_tags pg query row =
    if query.is_joined then left_join (process_event_tags pg row.event_tags) else none ∷ []

-- Some joined row of the event fulfils every group.
unfoldable pub is_selected : Postgres → Query → DbEvent → Bool
is_selected pg query row =
    any (λ tag. all (group_holds pg row tag) query.groups) (joined_tags pg query row)
