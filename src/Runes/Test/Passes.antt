-- ===== src/Runes/Test/Passes.antt =====
-- When a rune passes.
use nostream.Prelude.{
  ◌≡◌, ◌↔◌, ◌⊎◌, refl, inl, inr, Bool, true, Option, none, some, List, [], ◌∷◌, arith, All,
}
use nostream.Prelude.Text.{Text}
use nostream.Action.{Outcome, done, failed}
use nostream.Runes.{Alternative, Restriction}
use nostream.Runes.Test.{
  RuneValue, Numbers, test_alternative, next_reason, test_loop, joined, test_restriction,
  next_result, test_rune,
}

module _ {N : Type 0} (numbers : Numbers N) (values : Text → Option RuneValue) where
  -- Some alternative passes, and those before it give reasons against, without throwing.
  pub data SomePasses : List Alternative → Type 0 where
    this :
        {a : Alternative} {others : List Alternative}
        → test_alternative numbers values a ≡ done none
        → SomePasses (a ∷ others)
    next :
        {a : Alternative} {others : List Alternative} (reason : Text)
        → test_alternative numbers values a ≡ done (some reason)
        → SomePasses others
        → SomePasses (a ∷ others)

next_reason_lem :
    (o : Outcome (Option Text)) (rest : Outcome (Option (List Text)))
    → next_reason o rest ≡ done none
    → (o ≡ done none) ⊎ ((reason : Text) × (o ≡ done (some reason)) × (rest ≡ done none))
next_reason_lem (failed t) rest h = absurd (ground arith)
next_reason_lem (done none) rest h = inl refl
next_reason_lem (done (some reason)) (failed t) h = absurd (ground arith)
next_reason_lem (done (some reason)) (done none) h = inr (reason, refl, refl)
next_reason_lem (done (some reason)) (done (some reasons)) h = absurd (ground arith)

joined_iff : (o : Outcome (Option (List Text))) → (joined o ≡ done none) ↔ (o ≡ done none)
joined_iff (failed t) = (λ h. absurd (ground arith), λ h. absurd (ground arith))
joined_iff (done none) = (λ h. refl, λ h. refl)
joined_iff (done (some reasons)) = (λ h. absurd (ground arith), λ h. absurd (ground arith))

next_result_iff :
    (o : Outcome (Option Text)) (rest : Outcome (Bool × Text))
    → (next_result o rest ≡ done (true, [])) ↔ ((o ≡ done none) × (rest ≡ done (true, [])))
next_result_iff (failed t) rest = (λ h. absurd (ground arith), λ h. absurd (ground arith))
next_result_iff (done none) rest = (λ h. (refl, h), λ h. h.1)
next_result_iff (done (some reasons)) rest =
    (λ h. absurd (ground arith), λ h. absurd (ground arith))

module _ {N : Type 0} (numbers : Numbers N) (values : Text → Option RuneValue) where
  test_loop_sound :
      (r : List Alternative) → test_loop numbers values r ≡ done none → SomePasses numbers values r
  unfolding test_loop
  test_loop_sound [] h = absurd (ground arith)
  test_loop_sound (a ∷ others) h =
      elim (next_reason_lem (test_alternative numbers values a) (test_loop numbers values others)
        h) [
          | inl passes ↦ this passes
          | inr (reason, e, rest) ↦ next reason e (test_loop_sound others rest)
        ]

  test_loop_complete :
      (r : List Alternative) → SomePasses numbers values r → test_loop numbers values r ≡ done none
  unfolding test_loop
  test_loop_complete _ (this {a} {others} passes) = rw passes
  test_loop_complete _ (next {a} {others} reason e rest) = rw (e, test_loop_complete others rest)

  -- A rune passes exactly when in each of its restrictions some alternative passes and those before
  -- it give their reasons against without throwing.
  pub test_rune_iff :
      (restrictions : List Restriction)
      → (test_rune numbers values restrictions ≡ done (true, []))
        ↔ All (SomePasses numbers values) restrictions
  unfolding test_rune test_restriction
  test_rune_iff [] = (λ h. tt, λ h. refl)
  test_rune_iff (r ∷ restrictions) =
      let both =
        next_result_iff (test_restriction numbers values r)
          (test_rune numbers values restrictions) in
      let one = joined_iff (test_loop numbers values r) in
      let others = test_rune_iff restrictions in
      (
        λ h. let (first, rest) = both.0 h in (test_loop_sound r (one.0 first), others.0 rest),
        λ (first, rest). both.1 (one.1 (test_loop_complete r first), others.1 rest),
      )
