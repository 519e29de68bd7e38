-- ===== src/Controllers.antt =====
-- What the controllers of src/controllers/ share: requests and their answers, the address of a
-- request as in src/utils/http.ts, the users of the repository, and the limits on requests.

pub mod Page
pub mod Invoice
pub mod Issue
pub mod Price
pub mod Check
pub mod Limits
pub mod Key
pub mod Ends
pub mod Admission
pub mod Lnbits
pub mod Signed
pub mod Bodies
pub mod Processors
pub mod Unconfirmed
pub mod Status
pub mod Settled
pub mod Zebedee
pub mod Nodeless
pub mod Acknowledged
pub mod Callback
use nostream.Prelude.{
  ℕ, Bool, true, false, not, ◌&&◌, ◌||◌, Option, none, some, List, [], ◌∷◌, ◌++◌, ◌==◌,
  if◌then◌else◌,
}
use nostream.Prelude.Int.{ltb_ℤ}
use nostream.Prelude.Text.{Text, text, ◌===◌, includes}
use nostream.Prelude.Decimal.{decimal}
use nostream.Action.{Action, Outcome, done, failed, other, pure, ◌>>=◌, ◌>>◌}
use nostream.Settings.{Settings, RateLimit, RequestLimits, Network}
use nostream.Repository.{UserRepository, User, RateLimiter}
use nostream.Payments.{PaymentsState}
use nostream.Payments.Service.{ServiceContext}
use nostream.Bytes.Bech32.{Bech32Library}

-- The fields of a form that are read: one that is not there, or is no string, is `none`.
pub record Form : Type 0 where
  pub tos_accepted : Option Text
  pub fee_schedule : Option Text
  pub pubkey : Option Text

pub data RequestBody : Type 0 where
  no_object : RequestBody
  form : Form → RequestBody

-- `pubkey` is the parameter of that name in the path.
pub record HttpRequest : Type 0 where
  pub headers : List (Text × Text)
  pub remote_address : Option Text
  pub body : RequestBody
  pub pubkey : Text

-- A text, or the object `{ userAdmitted }`.
pub data ResponseBody : Type 0 where
  sent : Text → ResponseBody
  user_admitted : Bool → ResponseBody

-- `content_type` is the header, where the controller sets it.
pub record HttpResponse : Type 0 where
  pub status : ℕ
  pub content_type : Option Text
  pub body : ResponseBody

abbrev pub plain_text : Text
plain_text = text "text/plain; charset=utf8"

unfoldable pub refuse : ℕ → Text → HttpResponse
refuse status message = record {
  status = status;
  content_type = some plain_text;
  body = sent message;
}

unfoldable pub header_value : Text → List (Text × Text) → Option Text
header_value key [] = none
header_value key ((other_key, value) ∷ headers) =
    let rest = header_value key headers in if other_key === key then some value else rest

-- `headers[header]`
abbrev header_of : Option Text → List (Text × Text) → Option Text
header_of none headers = header_value (text "undefined") headers
header_of (some key) headers = header_value key headers

-- `result.split(',')[0]`
unfoldable pub before_comma : Text → Text
before_comma [] = []
before_comma (c ∷ s) = let rest = before_comma s in if c == b',' then [] else c ∷ rest

abbrev ip_header : Network → Option Text
ip_header network = elim network.deprecated_ip_header [
  | none ↦ network.remote_ip_header
  | some header ↦ some header
]

abbrev first_address : Option Text → Option Text → Outcome Text
first_address (some value) address = done (before_comma value)
first_address none (some address) = done (before_comma address)
first_address none none = failed other

unfoldable pub get_remote_address : HttpRequest → Settings → Outcome Text
get_remote_address request settings =
    first_address (header_of (ip_header settings.network) request.headers) request.remote_address

-- `user && user.isAdmitted && (!minBalance || user.balance >= minBalance)`
unfoldable pub is_admitted_user : ℕ → Option User → Bool
is_admitted_user min_balance none = false
is_admitted_user min_balance (some user) =
    user.is_admitted && (min_balance == 0 || not (ltb_ℤ user.balance min_balance))

-- What the controllers are given. `page` is what reading the page of invoices gives, and
-- `to_iso_string` is the method of a date.
pub record ControllerContext (D C : Type 0) : Type 0 where
  pub service : ServiceContext D
  pub users : UserRepository D
  pub limiter : RateLimiter C
  pub bech32 : Bech32Library
  pub page : Outcome Text
  pub to_iso_string : ℕ → Text

pub record ControllerState (D C : Type 0) : Type 0 where
  pub payments : PaymentsState D
  pub cache : C

-- `purpose` is ":invoice:" or ":admission-check:".
unfoldable pub request_limit_key : Text → Text → RateLimit → Text
request_limit_key purpose address limit = address ++ (purpose ++ decimal limit.period)

-- `Array.isArray(ipWhitelist) && !ipWhitelist.includes(remoteAddress)`
abbrev pub is_missing_in : Option (List Text) → Text → Bool
is_missing_in none address = false
is_missing_in (some list) address = not (includes address list)

-- The rates, and the addresses that they are not for.
abbrev pub rates_of : Option RequestLimits → List RateLimit × Option (List Text)
rates_of none = ([], none)
rates_of (some limits) = elim limits.rate_limits [
  | none ↦ ([], limits.ip_whitelist)
  | some rates ↦ (rates, limits.ip_whitelist)
]

module _ {D C : Type 0} (context : ControllerContext D C) where
  abbrev pub given : {A : Type 0} → Outcome A → Action (ControllerState D C) A
  given o w = (o, w)

  unfoldable pub request_limit_loop :
      Text → Text → Bool → List RateLimit → Action (ControllerState D C) Bool
  request_limit_loop purpose address limited [] = pure limited
  request_limit_loop purpose address limited (limit ∷ limits) =
      (λ w.
        let hit =
          context.limiter.hit (request_limit_key purpose address limit) 1 limit.period limit.rate
            w.cache in
        (hit.0, record w { cache = hit.1 }))
      >>= λ is_limited. request_limit_loop purpose address (limited || is_limited) limits

  unfoldable pub is_address_limited :
      Text → List RateLimit → Option (List Text) → Text → Action (ControllerState D C) Bool
  is_address_limited purpose rates whitelist address =
      if is_missing_in whitelist address
      then request_limit_loop purpose address false rates
      else pure false

  unfoldable pub is_request_limited :
      Text → List RateLimit × Option (List Text) → HttpRequest → Action (ControllerState D C) Bool
  is_request_limited purpose ([], whitelist) request = pure false
  is_request_limited purpose (rate ∷ rates, whitelist) request = do
    address ← given (get_remote_address request context.service.payments.settings)
    is_address_limited purpose (rate ∷ rates) whitelist address
