-- ===== src/Senders.antt =====
-- autorest/sender.go: the decorators of a sender that delay it, check its status code, or poll;
-- autorest/autorest.go: GetLocation, GetRetryAfter and NewPollingRequestWithContext;
-- autorest/preparer.go: WithMethod and WithBaseURL.
pub mod Polling
pub mod Ending
pub mod Checked
mod Scenarios
use go_autorest.Prelude.{
  ℕ, zero, suc, String, Bool, true, false, not, ◌&&◌, Option, none, some, List, [], ◌∷◌, ℤ, pos,
  negsuc, ◌⊎◌, inl, inr, if◌then◌else◌, is_empty,
}
use Prim.Native.String.{◌++◌ as ◌<>◌}
use go_autorest.Http.{Response, Request, response_has_status_code}
use go_autorest.Errors.{
  Error, Reply, external, original, new_error_with_response, new_error_with_error,
}
use go_autorest.Result.{Result, ok, err, panic}
use go_autorest.Preparers.{Preparer, PrepareDecorator, prepare}
use go_autorest.Sender.{reply, backoff_delay}

-- What `url.Parse` gives: the scheme, the query, and the rest.
pub record Url : Type 0 where
  pub scheme : String
  pub raw_query : String
  pub rest : String

-- The Go library: url.Parse; url.ParseQuery with Values.Encode, of a query whose semicolons are
-- escaped; URL.String; time.ParseDuration, `none` where it fails. An error is its message.
pub record Library : Type 0 where
  pub url_parse : String → String ⊎ Url
  pub reencode : String → String ⊎ String
  pub url_string : Url → String
  pub parse_duration : String → Option ℤ

-- How a sender ends: a reply, or a panic; or the fuel of the model runs out.
pub data Sent : Type 0 where
  replied : Reply → Sent
  sent_panic : Sent
  out_of_fuel : Sent

abbrev pub Sender : Type 0 → Type 0
Sender W = Request → W → Sent × W

-- `WithMethod`, which sets the method before the preparer that it decorates
unfoldable pub with_method : String → PrepareDecorator Request
with_method m p r = p (record r { method = m })

unfoldable pub get_location : Response → String
get_location resp = resp.header "Location"

module _ (lib : Library) where
  abbrev encoded : String ⊎ String → Url → Request → Result Request
  encoded (inl e) u r = err (external e)
  encoded (inr q) u r = ok (record r { url = lib.url_string (record u { raw_query = q }) })

  abbrev parsed : String ⊎ Url → String → Request → Result Request
  parsed (inl e) base r = err (external e)
  parsed (inr u) base r =
      if is_empty u.scheme
      then err (external ("autorest: No scheme detected in URL " <> base))
      else if is_empty u.raw_query
      then ok (record r { url = lib.url_string u })
      else encoded (lib.reencode u.raw_query) u r

  abbrev at_base : Result Request → String → Result Request
  at_base (ok r) base = parsed (lib.url_parse base) base r
  at_base (err e) base = err e
  at_base panic base = panic

  -- `WithBaseURL`
  unfoldable pub with_base_url : String → PrepareDecorator Request
  with_base_url base p r = at_base (p r) base

  abbrev created : Result Request → String → Result Request
  created (ok r) location = ok r
  created (err e) location = err (
      new_error_with_error (original e) "autorest" "NewPollingRequestWithContext" none
        "Failure creating poll request to %s" (location ∷ []))
  created panic location = panic

  -- `NewPollingRequestWithContext`
  unfoldable pub new_polling_request : Response → Result Request
  new_polling_request resp =
      let location = get_location resp in
      if is_empty location
      then err (
          new_error_with_response "autorest" "NewPollingRequestWithContext" (some resp)
            "Location header missing from response that requires polling" [])
      else created
          (prepare (some (record { method = ""; url = ""; request_header = λ _. "" }))
            (with_method "GET" ∷ with_base_url location ∷ []))
          location

  abbrev duration_or : ℤ → Option ℤ → ℤ
  duration_or d none = d
  duration_or d (some t) = t

  unfoldable pub get_retry_after : Response → ℤ → ℤ
  get_retry_after resp default =
      let retry = resp.header "Retry-After" in
      if is_empty retry then default else duration_or default (lib.parse_duration (retry <> "s"))

-- a delay below zero passes at once, as that of zero
abbrev delay_of : ℤ → ℕ
delay_of (pos n) = n
delay_of (negsuc n) = 0

-- `resp.Status`, a text, is left out of the arguments.
abbrev pub status_error : String → Response → Error
status_error method resp =
    new_error_with_response "autorest" method (some resp) "%v %v failed with %s"
      (resp.request_method ∷ resp.request_url ∷ [])

-- `resp.Request` panics where there is no response.
abbrev failed_with : String → Option Response → Sent
failed_with method none = sent_panic
failed_with method (some resp) = replied (reply (some resp) (some (status_error method resp)))

-- the status is tested where there is no error
abbrev pub tested : String → (Option Response → Bool) → Reply → Sent
tested method is_error r = elim r.failure [
  | some e ↦ replied r
  | none ↦ if is_error r.answer then failed_with method r.answer else replied r
]

abbrev pub and_test : {W : Type 0} → String → (Option Response → Bool) → Sent × W → Sent × W
and_test method is_error (replied r, w) = (tested method is_error r, w)
and_test method is_error (sent_panic, w) = (sent_panic, w)
and_test method is_error (out_of_fuel, w) = (out_of_fuel, w)

abbrev is_nil : Option Error → Bool
is_nil none = true
is_nil (some e) = false

-- `err == nil && ResponseHasStatusCode(resp, codes...)`
abbrev pub polls : List ℕ → Reply → Bool
polls codes r = is_nil r.failure && response_has_status_code r.answer codes

-- the loop goes on with a reply
abbrev pub go_on : {W : Type 0} → (Reply → W → Sent × W) → Sent × W → Sent × W
go_on f (replied r, w) = f r w
go_on f (sent_panic, w) = (sent_panic, w)
go_on f (out_of_fuel, w) = (out_of_fuel, w)

module _ {W : Type 0} where
  unfoldable pub as_is : Sender W → Sender W
  as_is s r w = s r w

  unfoldable pub do_error_if_status_code : List ℕ → Sender W → Sender W
  do_error_if_status_code codes s r w =
      and_test "DoErrorIfStatusCode" (λ resp. response_has_status_code resp codes) (s r w)

  unfoldable pub do_error_unless_status_code : List ℕ → Sender W → Sender W
  do_error_unless_status_code codes s r w =
      and_test "DoErrorUnlessStatusCode" (λ resp. not (response_has_status_code resp codes)) (s r w)

  module _ (wait : W → ℕ → Bool × W) where
    abbrev pub elapsed : Sender W → Request → Bool × W → Sent × W
    elapsed s r (true, w) = s r w
    elapsed s r (false, w) = (
      replied (reply none (some (external "autorest: AfterDelay canceled before full delay"))),
      w,
    )

    -- `AfterDelay`, whose delay is that of `DelayForBackoff` at attempt 0
    unfoldable pub after_delay : ℤ → Sender W → Sender W
    after_delay d s r w = elapsed s r (wait w (backoff_delay (delay_of d) 0 0))

    module _ (lib : Library) (delay : ℤ) (codes : List ℕ) (s : Sender W) where
      abbrev pub next_delay : Option Response → ℤ
      next_delay none = delay
      next_delay (some resp) = get_retry_after lib resp delay

      -- the loop, that sends the same request each time
      unfoldable pub poll_loop : ℕ → Request → Reply → W → Sent × W
      poll_loop zero req r w = (out_of_fuel, w)
      poll_loop (suc fuel) req r w =
          if polls codes r
          then go_on (poll_loop fuel req) (after_delay (next_delay r.answer) s req w)
          else (replied r, w)

      abbrev pub begin_polls : ℕ → Reply → Result Request → W → Sent × W
      begin_polls fuel r (ok req) w = poll_loop fuel req r w
      begin_polls fuel r (err e) w = (replied (reply r.answer (some e)), w)
      begin_polls fuel r panic w = (sent_panic, w)

      abbrev pub polling_request : Option Response → Result Request
      polling_request none = panic
      polling_request (some resp) = new_polling_request lib resp

      -- what follows the first reply
      unfoldable pub poll_from : ℕ → Reply → W → Sent × W
      poll_from fuel r w =
          if polls codes r then begin_polls fuel r (polling_request r.answer) w else (replied r, w)

      -- `DoPollForStatusCodes`; the first argument of the decorator is not read
      unfoldable pub do_poll_for_status_codes : ℕ → Sender W
      do_poll_for_status_codes fuel r w = go_on (poll_from fuel) (s r w)
