-- ===== src/RateLimiter.antt =====
-- The sliding window of src/utils/sliding-window-rate-limiter.ts, over the sorted sets of
-- src/adapters/redis-adapter.ts. The redis client is a parameter.
pub mod Laws
pub mod Window
use nostream.Prelude.{
  ℕ, ◌+◌, ◌-◌, Bool, false, Option, none, some, List, [], ◌∷◌, ◌++◌, map, ltb, leb, ◌==◌,
  if◌then◌else◌, get_elem?,
}
use nostream.Prelude.Int.{ℤ, pos, negsuc}
use nostream.Prelude.Text.{Text}
use nostream.Prelude.Decimal.{decimal}
use nostream.Action.{Action, Outcome, done, failed, pure, ◌>>◌}

-- The commands of the client on sorted sets, and the connection to it. `number` is `Number(text)`,
-- with `none` for NaN.
pub record Redis (C : Type 0) : Type 0 where
  pub number : Text → Option ℕ
  pub connection : Action C (Unit {0})
  pub z_rem_range_by_score : Text → ℕ → ℤ → Action C ℕ
  pub z_add : Text → List (Option ℕ × Text) → Action C ℕ
  pub z_range : Text → ℤ → ℤ → Action C (List Text)
  pub expire : Text → ℕ → Action C Bool

-- `a - b`
abbrev pub minus : ℕ → ℕ → ℤ
minus a b = if leb b a then pos (a - b) else negsuc (b - a - 1)

-- `s.split(separator)`, for a separator of one code unit.
abbrev pub on_first_part : ℕ → List Text → List Text
on_first_part c [] = []
on_first_part c (s ∷ parts) = (c ∷ s) ∷ parts

abbrev pub split : ℕ → Text → List Text
split separator [] = [] ∷ []
split separator (c ∷ s) =
    let parts = split separator s in if c == separator then [] ∷ parts else on_first_part c parts

abbrev pub colon : ℕ
colon = 58

-- The member that stands for a hit: `${timestamp}:${step}`
unfoldable pub member : ℕ → ℕ → Text
member timestamp step = decimal timestamp ++ colon ∷ decimal step

-- `Promise.all`: what was rejected first rejects the whole.
abbrev pub all_done : {A B : Type 0} → Outcome A → Outcome B → Outcome B
all_done (failed e) o = failed e
all_done (done a) o = o

abbrev pub map_done : {A B : Type 0} → (A → B) → Outcome A → Outcome B
map_done f (failed e) = failed e
map_done f (done a) = done (f a)

abbrev pub before_last : {A B : Type 0} → Outcome A → Outcome B → Outcome A
before_last (failed e) o = failed e
before_last (done a) o = map_done (λ _. a) o

abbrev pub add_number : Option ℕ → Option ℕ → Option ℕ
add_number (some a) (some b) = some (a + b)
add_number _ _ = none

-- `hits > rate`, which is false for NaN
abbrev pub exceeds : Option ℕ → ℕ → Bool
exceeds none rate = false
exceeds (some hits) rate = ltb rate hits

module _ {C : Type 0} (client : Redis C) where
  unfoldable pub remove_range_by_score_from_sorted_set : Text → ℕ → ℤ → Action C ℕ
  remove_range_by_score_from_sorted_set key min max =
      client.connection >> client.z_rem_range_by_score key min max

  unfoldable pub add_to_sorted_set : Text → List (Text × Text) → Action C ℕ
  add_to_sorted_set key set =
      client.connection
      >> client.z_add key (map (λ (value, score). (client.number score, value)) set)

  unfoldable pub get_range_from_sorted_set : Text → ℤ → ℤ → Action C (List Text)
  get_range_from_sorted_set key min max = client.connection >> client.z_range key min max

  unfoldable pub set_key_expiry : Text → ℕ → Action C (Unit {0})
  set_key_expiry key expiry = client.connection >> client.expire key expiry >> pure tt

  -- `Number(timestampAndStep.split(':')[1])`; a part that is not there is NaN.
  abbrev pub number_of_part : Option Text → Option ℕ
  number_of_part none = none
  number_of_part (some part) = client.number part

  unfoldable pub step_of : Text → Option ℕ
  step_of entry = number_of_part (get_elem? (split colon entry) 1)

  unfoldable pub count_hits : Option ℕ → List Text → Option ℕ
  count_hits acc [] = acc
  count_hits acc (entry ∷ entries) = count_hits (add_number acc (step_of entry)) entries

  -- `hit`, at the time `timestamp`. The four commands are sent one after the other, whatever
  -- becomes of each.
  unfoldable pub hit : ℕ → Text → ℕ → ℕ → ℕ → Action C Bool
  hit timestamp key step period rate w =
      let one = remove_range_by_score_from_sorted_set key 0 (minus timestamp period) w in
      let two = add_to_sorted_set key ((member timestamp step, decimal timestamp) ∷ []) one.1 in
      let three = get_range_from_sorted_set key (pos 0) (negsuc 0) two.1 in
      let four = set_key_expiry key period three.1 in
      (
        map_done (λ entries. exceeds (count_hits (some 0) entries) rate)
            (all_done one.0 (all_done two.0 (before_last three.0 four.0))),
        four.1,
      )
