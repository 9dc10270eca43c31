-- ===== src/Async/Scenarios.antt =====
-- Runs of long-running operations, and the theorems at them.
use go_autorest.Prelude.{
  zero, suc, ◌≤◌, ◌<◌, ℕ, String, ◌≡◌, ◌≢◌, refl, inl, inr, true, false, none, some, [], ◌∷◌, pos,
  arith,
}
use go_autorest.Json.{field, end, str, obj, get_field}
use go_autorest.Http.{Request, response_has_status_code, contains_int}
use go_autorest.Errors.{new_error_with_error, new_error}
use go_autorest.Platform.{FoldsCase, ascii_fold, is_ascii}
use go_autorest.Preparers.{create_preparer}
use go_autorest.ServiceErrors.{unmarshal_service_error}
use go_autorest.Result.{ok}
use go_autorest.Async.Tracker.{delete, has_failed, has_succeeded, has_terminated, polling_error}
use go_autorest.Async.Body.{update_raw_body, update_error_from_response, get_provisioning_state}
use go_autorest.Async.Headers.{
  is_valid_url, get_url_from_async_op_header, get_url_from_location_header, init_polling_method,
  init_from_headers, init_from_location,
}
use go_autorest.Async.State.{
  choose_state, note_failure, update_polling_state, accept_reply, receive, fail_with_response,
  begin, initialize_ok, initialize_by_status, initialize_from, initialize_state,
  base_check_for_errors,
}
use go_autorest.Async.Verbs.{
  update_polling_method, check_for_errors, provisioning_state_applicable, update_by_verb,
  update_delete_or_post, created_needs_location, accepted_with_final, final_location, use_async_op,
  update_patch, update_put, update_by_status, default_to_request, created_by_header, accepted_patch,
  require_location, accepted_put, put_location,
}
use go_autorest.Async.Create.{Tracker, created, start, create_as, create_polling_tracker, verb_of}
use go_autorest.Async.Future.{
  answer, prepare_poll, poll_state, after_checks, update_and_conclude, after_poll, after_send, poll,
  done_tracker, done_with_context, get_polling_delay, response,
}
use go_autorest.Async.Wait.{
  cancel_ctx, returned, out_of_fuel, plan_delay, poll_again, pause, follow, round, wait_loop,
  wait_polling, begin_polling, initial_delay, wait_for_completion_ref,
}
use go_autorest.Async.Failure.{FailedHasError}
use go_autorest.Async.Done.{SessionReports, done-reports}
use go_autorest.Async.Creation.{create-FailedHasError}
use go_autorest.Async.Unreported.{created_response, created_failure_unreported}
use go_autorest.Async.Polled.{SessionUrls, done-Urls}
use go_autorest.Async.Urls.{Urls}
use go_autorest.Async.Reachable.{accepted_has_uri}
use go_autorest.Async.Ending.{wait_ends}
use go_autorest.Async.Waiting.{wait-has_succeeded}
use go_autorest.Async.Runs.{
  plain, no_headers, accepted, running, succeeding, elapsing, never_canceled, client, waiting,
  finished, failing, null_answer, in_progress,
}

-- everything that a run computes with
polling : Unit {0}
unfolding ascii_fold is_ascii get_field response_has_status_code contains_int new_error_with_error
    new_error create_preparer unmarshal_service_error has_failed has_succeeded has_terminated
    polling_error update_raw_body update_error_from_response get_provisioning_state is_valid_url
    get_url_from_async_op_header get_url_from_location_header init_polling_method init_from_headers
    init_from_location choose_state note_failure update_polling_state accept_reply receive
    fail_with_response begin initialize_ok initialize_by_status initialize_from initialize_state
    base_check_for_errors update_polling_method check_for_errors provisioning_state_applicable
    update_by_verb update_delete_or_post created_needs_location accepted_with_final final_location
    use_async_op update_patch update_put update_by_status default_to_request created_by_header
    accepted_patch require_location accepted_put put_location start create_as create_polling_tracker
    verb_of prepare_poll poll_state after_checks update_and_conclude after_poll after_send poll
    done_tracker done_with_context get_polling_delay response cancel_ctx plan_delay poll_again pause
    follow round wait_loop wait_polling begin_polling initial_delay wait_for_completion_ref
polling = tt

plain-FoldsCase : FoldsCase plain
plain-FoldsCase = record { folds = λ s t a b. refl }

accepted_creates : create_polling_tracker plain accepted ≡ created running none
unfolding polling
accepted_creates = refl

running-FailedHasError : FailedHasError plain running.base
unfolding polling
running-FailedHasError f = cc

wait_returns :
    wait_for_completion_ref plain succeeding [] elapsing never_canceled client false 3 waiting
    ≡ (returned none, finished)
unfolding polling
wait_returns = refl

wait-has_succeeded_example :
    (t' : Tracker) × (finished.tracker ≡ some t') × (has_succeeded plain t'.base.state ≡ true)
wait-has_succeeded_example =
    wait-has_succeeded plain succeeding [] elapsing never_canceled client false 3 running 0 finished
      running-FailedHasError wait_returns

done-reports_example : SessionReports plain (done_with_context plain succeeding [] waiting)
done-reports_example = done-reports plain succeeding [] running 0 running-FailedHasError

create-FailedHasError_example : FailedHasError plain running.base
create-FailedHasError_example =
    create-FailedHasError plain plain-FoldsCase accepted running (omega arith) accepted_creates

running-Urls : Urls plain running.base
unfolding polling
running-Urls = (inr refl, inl refl)

done-Urls_example : SessionUrls plain delete (done_with_context plain succeeding [] waiting).1
done-Urls_example = done-Urls plain succeeding [] running 0 (inl refl) running-Urls

accepted_updates :
    update_polling_method plain delete (record running.base { uri = "" }) ≡ (ok tt, running.base)
unfolding polling
accepted_updates = refl

accepted_has_uri_example : ◌≢◌ {A = String} "https://poll" ""
accepted_has_uri_example =
    accepted_has_uri plain delete accepted (record running.base { uri = "" }) running.base refl refl
      accepted_updates

-- two polls are tried again, and the third failure is returned
offline_polls :
    (wait_for_completion_ref plain failing [] elapsing never_canceled client false 9
      waiting).1.world
    ≡ 3
unfolding polling
offline_polls = refl

poll_ready :
    prepare_poll plain [] "https://poll"
    ≡ ok (record { method = "GET"; url = "https://poll"; request_header = λ _. "" })
unfolding polling
poll_ready = refl

not_terminated : has_terminated plain "InProgress" ≡ false
unfolding polling
not_terminated = refl

no_polling_code : response_has_status_code (some null_answer) (204 ∷ 202 ∷ 201 ∷ 200 ∷ []) ≡ false
unfolding polling
no_polling_code = refl

states_failure :
    get_provisioning_state
      (field "properties" (obj (field "provisioningState" (str "Failed") end)) end)
    ≡ ok (some "Failed")
unfolding polling
states_failure = refl

failed_is_failure : has_failed plain "Failed" ≡ true
unfolding polling
failed_is_failure = refl

created_failure_unreported_example :
    let made = created_response no_headers (pos 4) "failed" "PUT" "https://resource" in
    (t : Tracker) × (create_polling_tracker plain made ≡ created t none)
    × (t.base.state ≡ "Failed")
    × (done_with_context plain succeeding [] (record { tracker = some t; world = 0 })
        ≡ (ok (answer true none), record { tracker = some t; world = 0 }))
created_failure_unreported_example =
    created_failure_unreported plain no_headers (pos 4) "failed" "PUT" "https://resource" "Failed"
      (field "properties" (obj (field "provisioningState" (str "Failed") end)) end) refl refl refl
      refl refl refl states_failure succeeding [] 0 failed_is_failure

three_polls :
    (wait_for_completion_ref plain in_progress [] elapsing never_canceled client false 6
      (record waiting { world = 3 })).0
    ≡ returned none
unfolding polling
three_polls = refl

in_progress-keeps : (w : ℕ) (r : Request) → (in_progress w r).1 ≤ w
in_progress-keeps zero r = omega arith
in_progress-keeps (suc n) r = omega arith

in_progress_fewer :
    (w : ℕ) (r : Request) → (in_progress w r).0.failure ≡ none → (in_progress w r).1 < w
in_progress_fewer zero r e = cc
in_progress_fewer (suc n) r e = omega arith

wait_ends_example :
    (wait_for_completion_ref plain in_progress [] elapsing never_canceled client false 6
      (record waiting { world = 3 })).0
    ≢ out_of_fuel
wait_ends_example =
    wait_ends plain in_progress [] elapsing never_canceled client false 6
      (record waiting { world = 3 }) (λ w. w) in_progress-keeps in_progress_fewer
      (λ c w d n. omega arith) (omega arith)
