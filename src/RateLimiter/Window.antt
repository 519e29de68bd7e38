-- ===== src/RateLimiter/Window.antt =====
-- The sliding window of src/utils/sliding-window-rate-limiter.ts counts the steps of the hits within
-- the period.
use mathlib.Core.List.{map-append}
use nostream.Prelude.{
  ℕ, ◌+◌, ◌≡◌, refl, ap, ◌∙◌, sym, inl, inr, not, ◌||◌, some, List, [], ◌∷◌, ◌++◌, map, arith, ltb,
  leb, ◌==◌, if◌then◌else◌, filter, Bool-cases,
}
use nostream.Prelude.Int.{pos, negsuc, ltb_ℤ}
use nostream.Prelude.Text.{Text, ◌===◌}
use nostream.Action.{done}
use nostream.RateLimiter.{
  Redis, minus, member, hit, count_hits, exceeds, add_number, remove_range_by_score_from_sorted_set,
  add_to_sorted_set, get_range_from_sorted_set, set_key_expiry,
}
use nostream.RateLimiter.Laws.{Documented, step_of-member}

-- A hit is its time and its step.
abbrev pub Hit : Type 0
Hit = ℕ × ℕ

abbrev pub entry : Hit → Text × ℕ
entry (timestamp, step) = (member timestamp step, timestamp)

abbrev pub total : List Hit → ℕ
total [] = 0
total ((_, step) ∷ hits) = step + total hits

-- The hits later than `period` before `now`.
abbrev pub within : ℕ → ℕ → List Hit → List Hit
within now period = filter (λ (timestamp, _). ltb now (timestamp + period))

-- The hits that another member of the sorted set stands for.
abbrev pub apart_from : Text → List Hit → List Hit
apart_from name = filter (λ (timestamp, step). not (member timestamp step === name))

total-append : (hits more : List Hit) → total (hits ++ more) ≡ total hits + total more
total-append [] more = omega arith
total-append ((t, s) ∷ hits) more = omega (arith, total-append hits more)

kept_iff :
    (now period score : ℕ)
    → (ltb score 0 || ltb_ℤ (minus now period) score) ≡ ltb now (score + period)
kept_iff now period score = elim (Bool-cases (leb period now)) [
  | inl y ↦ ground arith
  | inr n ↦ ground arith
]

filter-within :
    (now period : ℕ) (hits : List Hit)
    → filter (λ (_, score). ltb score 0 || ltb_ℤ (minus now period) score) (map entry hits)
      ≡ map entry (within now period hits)
filter-within now period [] = refl
filter-within now period ((t, s) ∷ hits) = elim (Bool-cases (ltb now (t + period))) [
  | inl y ↦ rw (kept_iff now period t, y, filter-within now period hits) refl
  | inr n ↦ rw (kept_iff now period t, n, filter-within now period hits) refl
]

filter-apart_from :
    (name : Text) (hits : List Hit)
    → filter (λ (other, _). not (other === name)) (map entry hits)
      ≡ map entry (apart_from name hits)
filter-apart_from name [] = refl
filter-apart_from name ((t, s) ∷ hits) = elim (Bool-cases (member t s === name)) [
  | inl y ↦ rw (y, filter-apart_from name hits) refl
  | inr n ↦ rw (n, filter-apart_from name hits) refl
]

-- A list of entries in two parts is a list of hits in two parts.
map-entry-split :
    (hits : List Hit) (before after : List (Text × ℕ))
    → map entry hits ≡ before ++ after
    → (front : List Hit) × (back : List Hit) × (hits ≡ front ++ back)
      × (map entry front ≡ before)
      × (map entry back ≡ after)
map-entry-split hits [] after h = ([], hits, refl, refl, h)
map-entry-split [] (b ∷ before) after h = absurd (ground arith)
map-entry-split (x ∷ hits) (b ∷ before) after h =
    let (front, back, e, f, g) = map-entry-split hits before after (ground arith) in
    (x ∷ front, back, ap (λ l. x ∷ l) e, ground arith, g)

count_hits-entries :
    {C : Type 0} (client : Redis C) (sorted_set : C → Text → List (Text × ℕ)) (acc : ℕ)
    (hits : List Hit)
    → Documented client sorted_set
    → count_hits client (some acc) (map (λ (value, _). value) (map entry hits))
      ≡ some (acc + total hits)
unfolding count_hits
count_hits-entries client sorted_set acc [] laws = ground arith
count_hits-entries client sorted_set acc ((t, s) ∷ hits) laws =
    let rest = map (λ (value, _). value) (map entry hits) in
    ap (λ n. count_hits client (add_number (some acc) n) rest)
      (step_of-member client sorted_set t s laws)
    ∙ count_hits-entries client sorted_set (acc + s) hits laws
    ∙ ap some (omega arith)

total-insert :
    (front back : List Hit) (now step : ℕ)
    → total (front ++ (now, step) ∷ back) ≡ step + total (front ++ back)
total-insert front back now step =
    omega (arith, total-append front ((now, step) ∷ back), total-append front back)

module _ {C : Type 0} (client : Redis C) (sorted_set : C → Text → List (Text × ℕ))
    (laws : Documented client sorted_set) where
  hit_answers :
      (now : ℕ) (key : Text) (step period rate : ℕ) (w : C)
      → let one = client.z_rem_range_by_score key 0 (minus now period) w in
        let two = client.z_add key ((some now, member now step) ∷ []) one.1 in
        ((hit client now key step period rate w).0
          ≡ done (
              exceeds
                (count_hits client (some 0) (map (λ (value, _). value) (sorted_set two.1 key)))
                rate))
        × (sorted_set (hit client now key step period rate w).1 key
            ≡ (if period == 0 then [] else sorted_set two.1 key))
  unfolding hit remove_range_by_score_from_sorted_set add_to_sorted_set get_range_from_sorted_set
      set_key_expiry
  hit_answers now key step period rate w =
      let one = client.z_rem_range_by_score key 0 (minus now period) w in
      let two = client.z_add key ((some now, member now step) ∷ []) one.1 in
      let three = client.z_range key (pos 0) (negsuc 0) two.1 in
      let ((_, r), _) = laws.removed key 0 (minus now period) w in
      let ((_, a), _) = laws.added key (member now step) now one.1 in
      let (l, same) = laws.listed key two.1 in
      let ((_, x), kept) = laws.expiring key period three.1 in
      let number = laws.number-decimal now in
      let c0 = laws.connected w in
      let c1 = laws.connected one.1 in
      let c2 = laws.connected two.1 in
      let c3 = laws.connected three.1 in
      (
        rw (c0, number, c1, c2, r, a, l, c3, x) refl,
        rw (c0, number, c1, c2, c3, x) (kept ∙ ap (λ set. if period == 0 then [] else set) same),
      )

  -- What is left of the set before the new member is placed.
  left_over :
      (now : ℕ) (key name : Text) (period : ℕ) (w : C) (hits : List Hit)
      → sorted_set w key ≡ map entry hits
      → filter
          (λ (other, _). not (other === name))
          (sorted_set (client.z_rem_range_by_score key 0 (minus now period) w).1 key)
        ≡ map entry (apart_from name (within now period hits))
  left_over now key name period w hits h =
      let (_, kept) = laws.removed key 0 (minus now period) w in
      ap (filter (λ (other, _). not (other === name))) (
        kept
        ∙ ap (filter (λ (_, score). ltb score 0 || ltb_ℤ (minus now period) score)) h
        ∙ filter-within now period hits)
      ∙ filter-apart_from name (within now period hits)

  -- Over a client that behaves as redis documents, and where the members under the key stand for
  -- `hits`, `hit` answers, whether the sum of its own step and of the steps of the hits later than
  -- `period` before it is above the rate. A hit with the same time and step as the new one is not
  -- counted again. Afterwards the members stand for exactly the hits that were counted, but where the
  -- period is 0 there is none.
  pub hit-Window :
      (now : ℕ) (key : Text) (step period rate : ℕ) (w : C) (hits : List Hit)
      → sorted_set w key ≡ map entry hits
      → ((hit client now key step period rate w).0
          ≡ done (ltb rate (step + total (apart_from (member now step) (within now period hits)))))
        × ((front back : List Hit) × (apart_from (member now step) (within now period hits)
              ≡ front ++ back)
            × (sorted_set (hit client now key step period rate w).1 key
                ≡ (if period == 0 then [] else map entry (front ++ (now, step) ∷ back))))
  hit-Window now key step period rate w hits h =
      let name = member now step in
      let recent = apart_from name (within now period hits) in
      let one = client.z_rem_range_by_score key 0 (minus now period) w in
      let (_, (before, after, parts, placed)) = laws.added key name now one.1 in
      let (front, back, e, f, g) =
        map-entry-split recent before after
          (sym (left_over now key name period w hits h) ∙ parts) in
      let members =
        placed
        ∙ ap (λ b. b ++ (name, now) ∷ after) (sym f)
        ∙ ap (λ b. map entry front ++ (name, now) ∷ b) (sym g)
        ∙ sym (map-append entry front ((now, step) ∷ back)) in
      let (answer, same) = hit_answers now key step period rate w in
      let counted =
        ap (λ set. count_hits client (some 0) (map (λ (value, _). value) set)) members
        ∙ count_hits-entries client sorted_set 0 (front ++ (now, step) ∷ back) laws
        ∙ ap some (omega (arith, total-insert front back now step, ap total e)) in
      (
        answer ∙ ap (λ n. done (exceeds n rate)) counted,
        (front, back, e, same ∙ ap (λ set. if period == 0 then [] else set) members),
      )
