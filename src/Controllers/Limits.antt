-- ===== src/Controllers/Limits.antt =====
-- The limits on requests of src/controllers/ touch the cache alone, and a user is admitted for the
-- controllers when the user is for the event handler.
use nostream.Prelude.{
  ℕ, ◌≡◌, refl, ◌↔◌, inl, inr, Bool, true, false, ◌||◌, Option, none, some, List, [], ◌∷◌, arith,
  Bool-cases,
}
use nostream.Prelude.Text.{Text}
use nostream.Strategies.Effects.{Outcome-cases}
use nostream.Settings.{RateLimit}
use nostream.Repository.{User}
use nostream.EventHandler.Admission.Admitted.{MayWrite}
use nostream.Controllers.{
  HttpRequest, is_admitted_user, ControllerContext, ControllerState, request_limit_key,
  is_missing_in, request_limit_loop, is_address_limited, is_request_limited, get_remote_address,
}

pub is_admitted_user_iff :
    (least : ℕ) (user : Option User) → (is_admitted_user least user ≡ true) ↔ MayWrite least user
unfolding is_admitted_user
is_admitted_user_iff least none = (λ h. absurd (ground arith), λ m. absurd m)
is_admitted_user_iff least (some user) =
    (λ h. (ground arith, λ p. ground arith), λ (a, b). ground arith)

module _ {D C : Type 0} (context : ControllerContext D C) where
  request_limit_loop-payments :
      (purpose address : Text) (limited : Bool) (limits : List RateLimit) (w : ControllerState D C)
      → (request_limit_loop context purpose address limited limits w).1.payments ≡ w.payments
  unfolding request_limit_loop
  request_limit_loop-payments purpose address limited [] w = refl
  request_limit_loop-payments purpose address limited (l ∷ limits) w =
      let hit =
        context.limiter.hit (request_limit_key purpose address l) 1 l.period l.rate w.cache in
      elim (Outcome-cases hit.0) [
        | inr (t, h) ↦ rw h refl
        | inl (b, h) ↦ rw h (
            request_limit_loop-payments purpose address (limited || b) limits
              (record w { cache = hit.1 }))
      ]

  is_address_limited-payments :
      (purpose : Text) (rates : List RateLimit) (whitelist : Option (List Text)) (address : Text)
      (w : ControllerState D C)
      → (is_address_limited context purpose rates whitelist address w).1.payments ≡ w.payments
  unfolding is_address_limited
  is_address_limited-payments purpose rates whitelist address w =
      elim (Bool-cases (is_missing_in whitelist address)) [
        | inl y ↦ rw y (request_limit_loop-payments purpose address false rates w)
        | inr n ↦ rw n refl
      ]

  pub is_request_limited-payments :
      (purpose : Text) (limits : List RateLimit × Option (List Text)) (request : HttpRequest)
      (w : ControllerState D C)
      → (is_request_limited context purpose limits request w).1.payments ≡ w.payments
  unfolding is_request_limited
  is_request_limited-payments purpose ([], whitelist) request w = refl
  is_request_limited-payments purpose (rate ∷ rates, whitelist) request w =
      elim (Outcome-cases (get_remote_address request context.service.payments.settings)) [
        | inr (t, h) ↦ rw h refl
        | inl (address, h) ↦
            rw h (is_address_limited-payments purpose (rate ∷ rates) whitelist address w)
      ]
