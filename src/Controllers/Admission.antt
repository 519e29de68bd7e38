-- ===== src/Controllers/Admission.antt =====
-- How `handleRequest` of src/controllers/admission/get-admission-check-controller.ts ends.
use nostream.Prelude.{◌≡◌, refl, ◌↔◌, inl, inr, Bool, true, false, Option}
use nostream.Prelude.Text.{text}
use nostream.Action.{Outcome, done, failed, Thrown, continue}
use nostream.Strategies.Effects.{Outcome-cases}
use nostream.Settings.{chain}
use nostream.EventHandler.Admission.{min_balance_of}
use nostream.EventHandler.Admission.Admitted.{MayWrite}
use nostream.Repository.{User}
use nostream.Controllers.{
  HttpRequest, HttpResponse, user_admitted, refuse, is_admitted_user, ControllerContext,
  ControllerState, rates_of,
}
use nostream.Controllers.Limits.{is_admitted_user_iff, is_request_limited-payments}
use nostream.Controllers.Check.{
  admission_answer, is_check_limited, answer_check, on_check_limited, get_admission_check,
}

module _ {D C : Type 0} (context : ControllerContext D C) where
  -- `w` is the state in which the request comes.
  pub data CheckEnds (request : HttpRequest) (w : ControllerState D C) (o : Outcome HttpResponse)
      : Type 0 where
    threw : (t : Thrown) → o ≡ failed t → CheckEnds request w o
    limited :
        (response : HttpResponse)
        → (is_check_limited context request w).0 ≡ done true
        → o ≡ done response
        → response.status ≡ 429
        → CheckEnds request w o
    answered :
        (response : HttpResponse) (user : Option User) (is_admitted : Bool)
        → (is_check_limited context request w).0 ≡ done false
        → context.users.find_by_pubkey request.pubkey w.payments.db ≡ done user
        → o ≡ done response
        → response.status ≡ 200
        → response.body ≡ user_admitted is_admitted
        → (is_admitted ≡ true) ↔ MayWrite (min_balance_of context.service.payments.settings) user
        → CheckEnds request w o

  abbrev Kept :
      HttpRequest → ControllerState D C → Outcome HttpResponse × ControllerState D C → Type 0
  Kept request w r = CheckEnds request w r.0 × (r.1.payments ≡ w.payments)

  answer_check_lem :
      (request : HttpRequest) (w v : ControllerState D C)
      → (is_check_limited context request w).0 ≡ done false
      → v.payments ≡ w.payments
      → Kept request w (answer_check context request.pubkey v)
  unfolding answer_check admission_answer
  answer_check_lem request w v l same =
      elim (Outcome-cases (context.users.find_by_pubkey request.pubkey v.payments.db)) [
        | inr (t, e) ↦ rw e (threw t refl, same)
        | inl (user, e) ↦
            let least = min_balance_of context.service.payments.settings in
            rw e (
              answered (admission_answer context.service.payments.settings user) user
                  (is_admitted_user least user) l (rw same at e) refl refl refl
                  (is_admitted_user_iff least user),
              same,
            )
      ]

  limited_lem :
      (request : HttpRequest) (w v : ControllerState D C) (o : Outcome Bool)
      → (is_check_limited context request w).0 ≡ o
      → v.payments ≡ w.payments
      → Kept request w (continue o (on_check_limited context request) v)
  unfolding on_check_limited refuse
  limited_lem request w v (failed t) l same = (threw t refl, same)
  limited_lem request w v (done true) l same =
      (limited (refuse 429 (text "Too many requests")) l refl refl, same)
  limited_lem request w v (done false) l same = answer_check_lem request w v l same

  is_check_limited-payments :
      (request : HttpRequest) (w : ControllerState D C)
      → (is_check_limited context request w).1.payments ≡ w.payments
  unfolding is_check_limited
  is_check_limited-payments request w =
      is_request_limited-payments context (text ":admission-check:")
        (rates_of (chain (λ l. l.admission_check) context.service.payments.settings.limits)) request
        w

  -- The check of a user's admission leaves the database and its transactions as they are. It throws,
  -- or it refuses a request that is limited with the status 429, or it says that the user is
  -- admitted exactly when a user is found that is admitted and has at least the balance that is
  -- asked for, if any is.
  pub get_admission_check-CheckEnds :
      (request : HttpRequest) (w : ControllerState D C)
      → CheckEnds request w (get_admission_check context request w).0
        × ((get_admission_check context request w).1.payments ≡ w.payments)
  unfolding get_admission_check
  get_admission_check-CheckEnds request w =
      let l = is_check_limited context request w in
      limited_lem request w l.1 l.0 refl (is_check_limited-payments request w)
