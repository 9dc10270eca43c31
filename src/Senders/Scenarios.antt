-- ===== src/Senders/Scenarios.antt =====
-- Runs of the decorated senders of autorest/sender.go.
use go_autorest.Prelude.{
  ℕ, zero, suc, ◌<◌, ◌≡◌, ◌≢◌, refl, ap, subst, String, Bool, true, false, none, some, [], ◌∷◌, pos,
  inr, str_eq, if◌then◌else◌, arith, ◌⊎◌,
}
use go_autorest.Http.{Response, Request, contains_int, response_has_status_code}
use go_autorest.Errors.{Reply}
use go_autorest.Preparers.{prepare}
use go_autorest.Sender.{reply}
use go_autorest.Senders.{
  Url, Library, Sender, replied, out_of_fuel, do_poll_for_status_codes, poll_loop, polls,
  after_delay, do_error_unless_status_code, poll_from, new_polling_request, with_method,
  with_base_url, get_location,
}
use go_autorest.Senders.Ending.{poll_ends}

abbrev plain_url : String → String ⊎ Url
plain_url u = inr (record { scheme = "https"; raw_query = ""; rest = u })

abbrev lib : Library
lib = record {
  url_parse = plain_url;
  reencode = λ q. inr q;
  url_string = λ u. u.rest;
  parse_duration = λ t. some (pos 1000000000);
}

abbrev headers : String → String
headers h = if str_eq h "Location" then "https://example.com/poll" else ""

abbrev response : ℕ → Response
response code = record {
  status_code = code;
  header = headers;
  body = none;
  content_length = pos 0;
  request_method = "GET";
  request_url = "https://example.com/poll";
}

-- a service that is busy as often as the world says
abbrev service : Sender ℕ
service req zero = (replied (reply (some (response 200)) none), zero)
service req (suc n) = (replied (reply (some (response 202)) none), n)

abbrev elapses : ℕ → ℕ → Bool × ℕ
elapses w d = (true, w)

abbrev start : Request
start = record { method = "GET"; url = "https://example.com/poll"; request_header = λ h. "" }

polled :
    do_poll_for_status_codes elapses lib (pos 0) (202 ∷ []) service 5 start 2
    ≡ (replied (reply (some (response 200)) none), 0)
unfolding do_poll_for_status_codes poll_from response_has_status_code contains_int
    new_polling_request get_location prepare with_base_url with_method poll_loop after_delay
polled = refl

service_ends : (req : Request) (w : ℕ) → (service req w).0 ≢ out_of_fuel
service_ends req zero = λ e. cc
service_ends req (suc n) = λ e. cc

answer_of : (g r : Reply) → replied g ≡ replied r → g ≡ r
answer_of g r e = cc

idle : (g r : Reply) → g ≡ r → polls (202 ∷ []) g ≡ false → polls (202 ∷ []) r ≡ true → ⊥
idle g r same is_not is = cc

service_fewer :
    (req : Request) (w w' : ℕ) (r : Reply)
    → service req w ≡ (replied r, w')
    → polls (202 ∷ []) r ≡ true
    → w' < w
unfolding response_has_status_code contains_int
service_fewer req zero w' r e p =
    absurd (idle (reply (some (response 200)) none) r (answer_of _ r (ap (λ o. o.0) e)) refl p)
service_fewer req (suc n) w' r e p = subst (λ v. v < suc n) (ap (λ o. o.1) e) (omega arith)

poll_ends_example :
    (do_poll_for_status_codes elapses lib (pos 0) (202 ∷ []) service 5 start 2).0 ≢ out_of_fuel
poll_ends_example =
    poll_ends (202 ∷ []) elapses lib (pos 0) service (λ w. w) (λ w d. omega arith) service_ends
      service_fewer 5 start 2 (omega arith)

passed :
    do_error_unless_status_code (200 ∷ []) service start 0
    ≡ (replied (reply (some (response 200)) none), 0)
unfolding do_error_unless_status_code response_has_status_code contains_int
passed = refl
