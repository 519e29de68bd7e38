-- ===== src/Repository/Table/Unique.antt =====
-- The test for a key of src/repositories/event-repository.ts, and what merging a row leaves of its key.
use nostream.Prelude.{◌≡◌, refl, ap, Bool, true, Option, none, some, List, [], ◌∷◌, arith}
use nostream.Prelude.Text.{Text, ===_iff, ===_refl}
use nostream.Repository.{DbEvent, Deduplication, author_and_kind, values}
use nostream.Repository.Table.{Key, key_of, is_key, same_texts, same_deduplication, merge_row}

same_texts_sound : (s t : List Text) → same_texts s t ≡ true → s ≡ t
unfolding same_texts
same_texts_sound [] [] h = refl
same_texts_sound [] (_ ∷ _) h = cc
same_texts_sound (_ ∷ _) [] h = cc
same_texts_sound (s ∷ texts) (t ∷ others) h =
    ground (arith, ===_iff s t, same_texts_sound texts others)

same_texts_refl : (s : List Text) → same_texts s s ≡ true
unfolding same_texts
same_texts_refl [] = refl
same_texts_refl (s ∷ texts) = ground (arith, ===_refl s, same_texts_refl texts)

same_deduplication_sound : (c d : Deduplication) → same_deduplication c d ≡ true → c ≡ d
unfolding same_deduplication
same_deduplication_sound (author_and_kind s k) (author_and_kind t l) h = ground (arith, ===_iff s t)
same_deduplication_sound (values s) (values t) h = ap values (same_texts_sound s t h)
same_deduplication_sound (author_and_kind s k) (values t) h = cc
same_deduplication_sound (values t) (author_and_kind s k) h = cc

same_deduplication_refl : (d : Deduplication) → same_deduplication d d ≡ true
unfolding same_deduplication
same_deduplication_refl (author_and_kind s k) = ground (arith, ===_refl s)
same_deduplication_refl (values s) = same_texts_refl s

-- A test of a value of an index.
pub record IsTest {K : Type 0} (test : K → Option K → Bool) : Type 0 where
  pub sound : (k : K) (o : Option K) → test k o ≡ true → o ≡ some k
  pub complete : (k : K) → test k (some k) ≡ true

is_key_sound : (k : Key) (o : Option Key) → is_key k o ≡ true → o ≡ some k
unfolding is_key
is_key_sound k none h = cc
is_key_sound (p, k, d) (some (q, l, c)) h =
    ground (arith, ===_iff p q, same_deduplication_sound d c)

is_key_complete : (k : Key) → is_key k (some k) ≡ true
unfolding is_key
is_key_complete (p, k, d) = ground (arith, ===_refl p, same_deduplication_refl d)

pub is_key-IsTest : IsTest is_key
is_key-IsTest = record { sound = is_key_sound; complete = is_key_complete }

pub merge_row-key_of : (old row : DbEvent) → key_of (merge_row old row) ≡ key_of old
unfolding merge_row key_of
merge_row-key_of old row = refl
