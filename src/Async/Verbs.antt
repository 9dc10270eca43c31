-- ===== src/Async/Verbs.antt =====
-- autorest/azure/async.go: the methods in which the trackers of DELETE, PATCH, POST and PUT differ,
-- and `createPollingTracker`.
use go_autorest.Prelude.{ℕ, String, Bool, ◌&&◌, ◌||◌, not, [], ◌==◌, if◌then◌else◌, is_empty}
use go_autorest.Json.{has_no_fields}
use go_autorest.Http.{Response}
use go_autorest.Errors.{new_error}
use go_autorest.Platform.{Platform}
use go_autorest.Result.{
  Result, ok, err, Exec, continue, pure, raise, lift, gets, modify, ◌>>=◌, ◌>>◌,
}
use go_autorest.Async.Tracker.{
  Base, Verb, delete, patch, post, put, PollingMethod, async_operation, location, request_uri,
  is_unknown, deref,
}
use go_autorest.Async.State.{base_check_for_errors}
use go_autorest.Async.Headers.{get_url_from_async_op_header, get_url_from_location_header}

abbrev pub poll_at : PollingMethod → String → Exec Base Unit
poll_at m u = modify (λ s. record s { uri = u; pm = m })

abbrev pub missing : String → String → Exec Base Unit
missing tracker message = raise (new_error tracker "updateHeaders" message [])

-- The Location header of a 202 response to DELETE, POST or PUT: an invalid one is an error only
-- where there is no polling URL yet.
abbrev pub location_or_keep : Result String → String → Result String
location_or_keep (err e) uri = if is_empty uri then err e else ok ""
location_or_keep r uri = r

-- an effect of the Location header on the polling and the final URL
abbrev pub take_final : String → String → Base → Base
take_final ao lh s =
    if is_empty lh
    then s
    else if is_empty ao
    then record s { uri = lh; pm = location; final_get_uri = lh }
    else record s { final_get_uri = lh }

abbrev pub require_uri : String → Exec Base Unit
require_uri tracker s =
    if is_empty s.uri
    then missing tracker "didn't get any suitable polling URLs in 202 response" s
    else (ok tt, s)

-- PATCH and PUT begin with the URL of the request
abbrev default_method : PollingMethod → PollingMethod
default_method m = if is_unknown m then request_uri else m

abbrev or_url : String → String → String
or_url uri url = if is_empty uri then url else uri

unfoldable pub default_to_request : Response → Exec Base Unit
default_to_request resp = modify (λ s. record s {
  uri = or_url s.uri resp.request_url;
  final_get_uri = or_url s.final_get_uri resp.request_url;
  pm = default_method s.pm;
})

module _ (p : Platform) where
  -- the Azure-AsyncOperation header, taken where it is there; its value is kept
  unfoldable pub use_async_op : Response → Exec Base String
  use_async_op resp = do
    ao ← lift (get_url_from_async_op_header p resp)
    if is_empty ao then pure ao else (poll_at async_operation ao >> pure ao)

  -- 201 to DELETE and POST: the Location header is required, and is the final GET's URL
  unfoldable pub created_needs_location : String → Response → Exec Base Unit
  created_needs_location tracker resp = do
    lh ← lift (get_url_from_location_header p resp)
    if is_empty lh
        then missing tracker "missing Location header in 201 response"
        else modify (λ s. record s { uri = lh; pm = location; final_get_uri = lh })

  -- 202 to DELETE and POST: Location is polled in default of Azure-AsyncOperation, and is the final
  -- GET's URL
  unfoldable pub final_location : Response → String → Exec Base Unit
  final_location resp ao s =
      continue (location_or_keep (get_url_from_location_header p resp) s.uri)
        (λ lh. modify (take_final ao lh)) s

  unfoldable pub accepted_with_final : Response → Exec Base Unit
  accepted_with_final resp = do
    ao ← use_async_op resp
    final_location resp ao
    require_uri "pollingTrackerPost"

  unfoldable pub update_delete_or_post : String → Response → Exec Base Unit
  update_delete_or_post tracker resp s =
      if resp.status_code == 201
      then created_needs_location tracker resp s
      else if resp.status_code == 202
      then accepted_with_final resp s
      else (ok tt, s)

  -- 202 to PATCH: Location is required in default of Azure-AsyncOperation
  unfoldable pub require_location : Response → String → Exec Base Unit
  require_location resp ao s =
      if is_empty ao
      then continue (get_url_from_location_header p resp)
          (λ lh.
            if is_empty lh
            then missing "pollingTrackerPatch"
                "didn't get any suitable polling URLs in 202 response"
            else poll_at location lh)
          s
      else (ok tt, s)

  unfoldable pub accepted_patch : Response → Exec Base Unit
  accepted_patch resp = do ao ← use_async_op resp; require_location resp ao

  -- 202 to PUT
  unfoldable pub put_location : Response → String → Exec Base Unit
  put_location resp ao s =
      continue (location_or_keep (get_url_from_location_header p resp) s.uri)
        (λ lh. if not (is_empty lh) && is_empty ao then poll_at location lh else pure tt) s

  unfoldable pub accepted_put : Response → Exec Base Unit
  accepted_put resp = do
    ao ← use_async_op resp
    put_location resp ao
    require_uri "pollingTrackerPut"

  -- 201 to PATCH and PUT: no header is required
  unfoldable pub created_by_header : Response → Exec Base Unit
  created_by_header resp = use_async_op resp >> pure tt

  -- the two `if`s on the status, of PATCH and PUT
  unfoldable pub update_by_status : (Response → Exec Base Unit) → Response → Exec Base Unit
  update_by_status accepted resp s =
      if resp.status_code == 201
      then created_by_header resp s
      else if resp.status_code == 202
      then accepted resp s
      else (ok tt, s)

  unfoldable pub update_patch : Response → Exec Base Unit
  update_patch resp = do default_to_request resp; update_by_status accepted_patch resp

  unfoldable pub update_put : Response → Exec Base Unit
  update_put resp = do default_to_request resp; update_by_status accepted_put resp

  unfoldable pub update_by_verb : Verb → Response → Exec Base Unit
  update_by_verb delete = update_delete_or_post "pollingTrackerDelete"
  update_by_verb post = update_delete_or_post "pollingTrackerPost"
  update_by_verb patch = update_patch
  update_by_verb put = update_put

  unfoldable pub update_polling_method : Verb → Exec Base Unit
  update_polling_method verb = do resp ← deref; update_by_verb verb resp

  -- what `checkForErrors` of PUT adds
  check_put : Exec Base Unit
  check_put = do
    base_check_for_errors
    resp ← deref
    ao ← lift (get_url_from_async_op_header p resp)
    lh ← lift (get_url_from_location_header p resp)
    s ← gets (λ s. s)
    if is_empty ao && (is_empty lh && has_no_fields s.raw_body)
        then raise (
            new_error "pollingTrackerPut" "checkForErrors" "the response did not contain a body" [])
        else pure tt

  unfoldable pub check_for_errors : Verb → Exec Base Unit
  unfolding check_put
  check_for_errors put = check_put
  check_for_errors _ = base_check_for_errors

-- `provisioningStateApplicable`, of a status code
unfoldable pub provisioning_state_applicable : Verb → ℕ → Bool
provisioning_state_applicable delete code = code == 200 || code == 204
provisioning_state_applicable post code = code == 200 || code == 204
provisioning_state_applicable patch code = code == 200 || code == 201
provisioning_state_applicable put code = code == 200 || code == 201
