-- ===== src/RateLimiter/Laws.antt =====
-- What redis documents of its sorted sets, and what a member of the sliding window of
-- src/utils/sliding-window-rate-limiter.ts reads back as.
use nostream.Prelude.{
  ℕ, zero, suc, ◌+◌, ◌/◌, ◌%◌, ◌≡◌, refl, inl, inr, Bool, false, not, ◌||◌, some, List, [], ◌∷◌,
  ◌++◌, map, arith, ltb, ◌==◌, if◌then◌else◌, filter, Bool-cases, All,
}
use nostream.Prelude.Int.{ℤ, pos, negsuc, ltb_ℤ}
use nostream.Prelude.Text.{Text, ◌===◌}
use nostream.Prelude.Decimal.{decimal, decimal_before}
use nostream.Action.{done}
use nostream.RateLimiter.{Redis, split, colon, member, step_of}

-- The client answers, and a sorted set is a list of members with scores: a range of scores is
-- removed, ends included; a member is added or, where it is present, moved to its new score, at
-- the place that the order of the set gives it; and the range from 0 to -1 is the whole set. A time to live of no
-- seconds deletes the key at once, and any other leaves the set as it is.
pub record Documented {C : Type 0} (client : Redis C) (sorted_set : C → Text → List (Text × ℕ))
    : Type 0 where
  pub connected : (w : C) → client.connection w ≡ (done tt, w)
  pub number-decimal : (n : ℕ) → client.number (decimal n) ≡ some n
  pub removed :
      (key : Text) (min : ℕ) (max : ℤ) (w : C)
      → ((n : ℕ) × ((client.z_rem_range_by_score key min max w).0 ≡ done n))
        × (sorted_set (client.z_rem_range_by_score key min max w).1 key
            ≡ filter (λ (_, score). ltb score min || ltb_ℤ max score) (sorted_set w key))
  pub added :
      (key value : Text) (score : ℕ) (w : C)
      → ((n : ℕ) × ((client.z_add key ((some score, value) ∷ []) w).0 ≡ done n))
        × ((before after : List (Text × ℕ)) × (filter
                (λ (other, _). not (other === value))
                (sorted_set w key)
              ≡ before ++ after)
            × (sorted_set (client.z_add key ((some score, value) ∷ []) w).1 key
                ≡ before ++ (value, score) ∷ after))
  pub listed :
      (key : Text) (w : C)
      → ((client.z_range key (pos 0) (negsuc 0) w).0
          ≡ done (map (λ (value, _). value) (sorted_set w key)))
        × (sorted_set (client.z_range key (pos 0) (negsuc 0) w).1 key ≡ sorted_set w key)
  pub expiring :
      (key : Text) (seconds : ℕ) (w : C)
      → ((b : Bool) × ((client.expire key seconds w).0 ≡ done b))
        × (sorted_set (client.expire key seconds w).1 key
            ≡ (if seconds == 0 then [] else sorted_set w key))

abbrev NoColon : Text → Type 0
NoColon = All (λ c. (c == colon) ≡ false)

decimal_before-NoColon : (fuel n : ℕ) (s : Text) → NoColon s → NoColon (decimal_before fuel n s)
unfolding decimal_before
decimal_before-NoColon zero n s h = h
decimal_before-NoColon (suc fuel) n s h =
    let digit = n % 10 + 48 in
    let here : NoColon (digit ∷ s) = (omega_digit n, h) in
    elim (Bool-cases (n / 10 == 0)) [
      | inl last ↦ rw last here
      | inr more ↦ rw more (decimal_before-NoColon fuel (n / 10) (digit ∷ s) here)
    ]
  where
    omega_digit : (m : ℕ) → ((m % 10 + 48) == colon) ≡ false
    omega_digit m = ground arith

decimal-NoColon : (n : ℕ) → NoColon (decimal n)
unfolding decimal
decimal-NoColon n = decimal_before-NoColon (suc n) n [] tt

split-NoColon : (s : Text) → NoColon s → split colon s ≡ s ∷ []
split-NoColon [] h = refl
split-NoColon (c ∷ s) (a, b) = rw (a, split-NoColon s b) refl

split-append : (s t : Text) → NoColon s → NoColon t → split colon (s ++ colon ∷ t) ≡ s ∷ t ∷ []
split-append [] t h k = rw (split-NoColon t k) refl
split-append (c ∷ s) t (a, b) k = rw (a, split-append s t b k) refl

pub step_of-member :
    {C : Type 0} (client : Redis C) (sorted_set : C → Text → List (Text × ℕ)) (timestamp step : ℕ)
    → Documented client sorted_set
    → step_of client (member timestamp step) ≡ some step
unfolding step_of member
step_of-member client sorted_set timestamp step laws =
    rw (split-append _ _ (decimal-NoColon timestamp) (decimal-NoColon step))
      (laws.number-decimal step)
