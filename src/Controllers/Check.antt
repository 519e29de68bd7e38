-- ===== src/Controllers/Check.antt =====
-- src/controllers/admission/get-admission-check-controller.ts: whether a user is admitted.
use nostream.Prelude.{some, Bool, Option, if◌then◌else◌}
use nostream.Prelude.Text.{Text, text}
use nostream.Action.{Action, pure, ◌>>=◌}
use nostream.Settings.{Settings, chain}
use nostream.EventHandler.Admission.{min_balance_of}
use nostream.Repository.{User}
use nostream.Controllers.{
  HttpRequest, HttpResponse, user_admitted, refuse, is_admitted_user, ControllerContext,
  ControllerState, rates_of, is_request_limited,
}

unfoldable pub admission_answer : Settings → Option User → HttpResponse
admission_answer settings user = record {
  status = 200;
  content_type = some (text "application/json; charset=utf8");
  body = user_admitted (is_admitted_user (min_balance_of settings) user);
}

module _ {D C : Type 0} (context : ControllerContext D C) where
  abbrev settings : Settings
  settings = context.service.payments.settings

  -- `isRateLimited`
  unfoldable pub is_check_limited : HttpRequest → Action (ControllerState D C) Bool
  is_check_limited =
      is_request_limited context (text ":admission-check:")
        (rates_of (chain (λ l. l.admission_check) settings.limits))

  unfoldable pub answer_check : Text → Action (ControllerState D C) HttpResponse
  answer_check pubkey w =
      ((λ w. (context.users.find_by_pubkey pubkey w.payments.db, w)) >>= λ user.
      pure (admission_answer settings user))
        w

  unfoldable pub on_check_limited : HttpRequest → Bool → Action (ControllerState D C) HttpResponse
  on_check_limited request limited =
      if limited then pure (refuse 429 (text "Too many requests")) else answer_check request.pubkey

  unfoldable pub get_admission_check : HttpRequest → Action (ControllerState D C) HttpResponse
  get_admission_check request = is_check_limited request >>= on_check_limited request
