-- ===== src/Async/Unreported.antt =====
-- A defect of the 201 case: an operation whose first response already says that it failed.
use go_autorest.Prelude.{ℤ, String, ◌≡◌, refl, true, false, none, some, List, is_zero, is_empty}
use go_autorest.Json.{Fields}
use go_autorest.Http.{readable, Response, Request}
use go_autorest.Errors.{Reply}
use go_autorest.Platform.{Platform, decoded}
use go_autorest.Preparers.{PrepareDecorator}
use go_autorest.Result.{ok}
use go_autorest.Async.Tracker.{Base, put, request_uri, base_of, has_failed, polling_error}
use go_autorest.Async.Body.{get_provisioning_state, update_raw_body}
use go_autorest.Async.Headers.{
  init_polling_method, init_from_headers, init_from_location, get_url_from_async_op_header,
  get_url_from_location_header,
}
use go_autorest.Async.State.{begin, initialize_state, initialize_from, initialize_by_status}
use go_autorest.Async.Verbs.{
  update_polling_method, update_by_verb, update_put, update_by_status, created_by_header,
  use_async_op, default_to_request,
}
use go_autorest.Async.Create.{Tracker, created, start, create_as, create_polling_tracker, verb_of}
use go_autorest.Async.Failure.{has_terminated_of_has_failed}
use go_autorest.Async.Future.{answer, done_tracker, done_with_context}

-- the response of status 201 to a request, with a body that reads to its end
abbrev pub created_response : (String → String) → ℤ → String → String → String → Response
created_response header length text method url = record {
  status_code = 201;
  header = header;
  body = some (readable text);
  content_length = length;
  request_method = method;
  request_url = url;
}

module _ (p : Platform) (header : String → String) (length : ℤ) (text method url st : String)
    (fields : Fields) (is_put : p.to_upper method ≡ "PUT")
    (no_async_op : header "Azure-Asyncoperation" ≡ "") (no_location : header "Location" ≡ "")
    (has_length : is_zero length ≡ false) (has_text : is_empty text ≡ false)
    (decodes : p.unmarshal_object text ≡ decoded fields)
    (provisioning : get_provisioning_state fields ≡ ok (some st)) where
  abbrev made : Response
  made = created_response header length text method url

  -- the base after `initializeState`
  abbrev failed_base : Base
  failed_base = record (base_of made) { method = method; raw_body = fields; state = st }

  read_failed :
      update_raw_body p (record (base_of made) { method = method })
      ≡ (ok tt, record (base_of made) { method = method; raw_body = fields })
  unfolding update_raw_body
  read_failed = rw has_length (rw has_text (rw decodes refl))

  begin_failed :
      begin p st (record (base_of made) { method = method; raw_body = fields })
      ≡ (ok tt, failed_base)
  unfolding begin init_polling_method init_from_headers init_from_location
      get_url_from_async_op_header get_url_from_location_header
  begin_failed = rw no_async_op (rw no_location refl)

  initialize_failed : initialize_state p (base_of made) ≡ (ok tt, failed_base)
  unfolding initialize_state initialize_from initialize_by_status
  initialize_failed = rw read_failed (rw provisioning begin_failed)

  abbrev failed_tracker : Tracker
  failed_tracker = record {
    verb = put;
    base = record failed_base { uri = url; final_get_uri = url; pm = request_uri };
  }

  update_failed : update_polling_method p put failed_base ≡ (ok tt, failed_tracker.base)
  unfolding update_polling_method update_by_verb update_put update_by_status created_by_header
      use_async_op default_to_request get_url_from_async_op_header
  update_failed = rw no_async_op refl

  start_failed : start p put (base_of made) ≡ (ok tt, failed_tracker.base)
  unfolding start
  start_failed = rw initialize_failed update_failed

  -- A PUT is answered with status 201, no polling header, and a body whose provisioning state is
  -- failed or canceled. Then `createPollingTracker` returns a tracker in that state without an error,
  -- and with it `DoneWithContext` answers true without an error, and sends nothing.
  pub created_failure_unreported :
      {W : Type 0} (send : W → Request → Reply × W) (ds : List (PrepareDecorator Request)) (w : W)
      → has_failed p st ≡ true
      → (t : Tracker) × (create_polling_tracker p made ≡ created t none)
        × (t.base.state ≡ st)
        × (done_with_context p send ds (record { tracker = some t; world = w })
            ≡ (ok (answer true none), record { tracker = some t; world = w }))
  unfolding create_polling_tracker create_as verb_of done_with_context done_tracker polling_error
  created_failure_unreported send ds w failed = (
    failed_tracker,
    rw is_put (rw start_failed refl),
    refl,
    rw (has_terminated_of_has_failed p st failed) refl,
  )
