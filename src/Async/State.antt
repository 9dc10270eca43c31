-- ===== src/Async/State.antt =====
-- autorest/azure/async.go: `initializeState`, `updatePollingState`, `baseCheckForErrors` and the
-- part of `pollForStatus` that follows the send.
use go_autorest.Prelude.{
  ℕ, String, Bool, true, false, ◌&&◌, not, Option, none, some, [], ◌==◌, if◌then◌else◌, is_zero,
}
use go_autorest.Json.{Json, str, get_field, is_null}
use go_autorest.Http.{Response, response_has_status_code}
use go_autorest.Errors.{Reply, Error, original, new_error, new_error_with_error}
use go_autorest.Platform.{Platform}
use go_autorest.Result.{
  Result, ok, panic, Exec, continue, pure, raise, lift, gets, modify, ◌>>=◌, ◌>>◌,
}
use go_autorest.Async.Tracker.{
  Base, is_async, operation_in_progress, operation_failed, operation_succeeded, polling_codes,
  deref, polling_error, has_failed,
}
use go_autorest.Async.Body.{update_raw_body, update_error_from_response, get_provisioning_state}
use go_autorest.Async.Headers.{init_polling_method}

-- `return pt.pollingError()`
abbrev return_error : Option Error → Exec Base Unit
return_error none = pure tt
return_error (some e) = raise e

abbrev set_state : String → Exec Base Unit
set_state st = modify (λ s. record s { state = st })

-- the provisioning state of the body, or a default
abbrev state_or : String → Option String → String
state_or default none = default
state_or default (some ps) = ps

abbrev provisioning_state : Exec Base (Option String)
provisioning_state s = (get_provisioning_state s.raw_body, s)

module _ (p : Platform) where
  -- `pt.updateErrorFromResponse(); return pt.pollingError()`
  unfoldable pub fail_with_response : Exec Base Unit
  fail_with_response = do update_error_from_response p; e ← gets polling_error; return_error e

  unfoldable pub begin : String → Exec Base Unit
  begin st s = init_polling_method p (record s { state = st })

  -- the case of 200; what the `switch` falls out to is `initPollingMethod`
  unfoldable pub initialize_ok : Option String → Exec Base Unit
  initialize_ok none s = begin operation_succeeded s
  initialize_ok (some ps) s =
      if has_failed p ps then fail_with_response (record s { state = ps }) else begin ps s

  -- the `switch` on the status code
  unfoldable pub initialize_by_status : ℕ → Exec Base Unit
  initialize_by_status code s =
      if code == 200
      then continue (get_provisioning_state s.raw_body) initialize_ok s
      else if code == 201
      then continue (get_provisioning_state s.raw_body)
          (λ ps. begin (state_or operation_in_progress ps)) s
      else if code == 202
      then begin operation_in_progress s
      else if code == 204
      then begin operation_succeeded s
      else fail_with_response (record s { state = operation_failed })

  -- `pt.resp.StatusCode` is read after the body was
  unfoldable pub initialize_from : Exec Base Unit
  initialize_from = do resp ← deref; initialize_by_status resp.status_code

  unfoldable pub initialize_state : Exec Base Unit
  initialize_state = do
    resp ← deref
    modify (λ s. record s { method = resp.request_method })
    update_raw_body p
    initialize_from

  -- what follows `pt.resp, err = sender.Do(req)`, by `err` and whether the status is a polling code
  unfoldable pub receive : Option Error → Bool → Exec Base Unit
  receive (some e) accepted = raise (
      new_error_with_error (original e) "pollingTrackerBase" "pollForStatus" none
        "failed to send HTTP request" [])
  receive none true = modify (λ s. record s { error = none }) >> update_raw_body p
  receive none false = fail_with_response

  unfoldable pub accept_reply : Reply → Exec Base Unit
  accept_reply reply s =
      receive reply.failure (response_has_status_code reply.answer polling_codes)
        (record s { resp = reply.answer })

-- `pt.rawBody["status"].(string)`
abbrev status_text : Json → Result String
status_text (str s) = ok s
status_text _ = panic

-- `pt.Pm == PollingAsyncOperation && pt.rawBody["status"] != nil`
abbrev pub reads_status : Base → Bool
reads_status s = is_async s.pm && not (is_null (get_field "status" s.raw_body))

-- the way to the state when no status is read from the body
state_by_code : Bool → ℕ → Exec Base Unit
state_by_code prov_state_apl code =
    if code == 202
    then set_state operation_in_progress
    else if prov_state_apl
    then provisioning_state >>= (λ ps. set_state (state_or operation_succeeded ps))
    else raise (
        new_error "pollingTrackerBase" "updatePollingState"
          "the response from the async operation has an invalid status code" [])

-- the assignment of `pt.State`
choose_by : Bool → Bool → Exec Base Unit
unfolding state_by_code
choose_by true prov_state_apl =
    gets (λ s. get_field "status" s.raw_body) >>= λ v. lift (status_text v) >>= set_state
choose_by false prov_state_apl = deref >>= λ resp. state_by_code prov_state_apl resp.status_code

unfoldable pub choose_state : Bool → Exec Base Unit
unfolding choose_by
choose_state prov_state_apl s = choose_by (reads_status s) prov_state_apl s

module _ (p : Platform) where
  -- `if pt.hasFailed() { pt.updateErrorFromResponse() }`
  unfoldable pub note_failure : Exec Base Unit
  note_failure s = if has_failed p s.state then update_error_from_response p s else pure tt s

  unfoldable pub update_polling_state : Bool → Exec Base Unit
  update_polling_state prov_state_apl = do choose_state prov_state_apl; note_failure

-- `pt.resp.Body == nil || pt.resp.ContentLength == 0`
abbrev no_body : Response → Bool
no_body resp = elim resp.body [ none ↦ true | some b ↦ is_zero resp.content_length ]

unfoldable pub base_check_for_errors : Exec Base Unit
base_check_for_errors = do
  s ← gets (λ s. s)
  if is_async s.pm
      then (deref >>= λ resp.
          if no_body resp
          then raise (
              new_error "pollingTrackerBase" "baseCheckForErrors"
                "for Azure-AsyncOperation response body cannot be nil" [])
          else if is_null (get_field "status" s.raw_body)
          then raise (
              new_error "pollingTrackerBase" "baseCheckForErrors"
                "missing status property in Azure-AsyncOperation response body" [])
          else pure tt)
      else pure tt
