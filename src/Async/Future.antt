-- ===== src/Async/Future.antt =====
-- autorest/azure/async.go: `pollForStatus`, and the methods of `Future` that do not wait.
use go_autorest.Prelude.{
  String, Bool, true, false, Option, none, some, List, [], ℤ, if◌then◌else◌, is_empty,
}
use Prim.Native.String.{◌++◌ as ◌<>◌}
use go_autorest.Http.{Response, Request, readable, broken}
use go_autorest.Errors.{Reply, Error, external, original, new_error, new_error_with_error}
use go_autorest.Platform.{Platform}
use go_autorest.Preparers.{PrepareDecorator, create_preparer}
use go_autorest.Result.{Result, ok, err, panic, Exec, pure, on_error, ◌>>=◌}
use go_autorest.Async.Tracker.{
  Base, Verb, PollingMethod, unknown, deref, polling_error, has_terminated, has_succeeded,
}
use go_autorest.Async.State.{accept_reply, update_polling_state}
use go_autorest.Async.Headers.{init_polling_method}
use go_autorest.Async.Verbs.{update_polling_method, check_for_errors, provisioning_state_applicable}
use go_autorest.Async.Create.{Tracker, Created, create_polling_tracker}

-- The pair that `DoneWithContext` returns.
pub record Answer : Type 0 where
  pub done : Bool
  pub failure : Option Error

abbrev pub answer : Bool → Option Error → Answer
answer d e = record { done = d; failure = e }

-- A future whose tracker is nil is `none`. `world` is what the sender and the clock act on.
pub record Session (W : Type 0) : Type 0 where
  pub tracker : Option Tracker
  pub world : W

-- `http.NewRequest(http.MethodGet, uri, nil)`
abbrev get_request : String → Request
get_request uri = record { method = "GET"; url = uri; request_header = λ _. "" }

module _ (p : Platform) where
  unfoldable pub new_future_from_response : Response → Created
  new_future_from_response resp = create_polling_tracker p resp

  -- the part of `pollForStatus` before the send
  unfoldable pub prepare_poll : List (PrepareDecorator Request) → String → Result Request
  prepare_poll decorators uri = elim (p.new_request_error uri) [
    | some e ↦ err (
        new_error_with_error (original (external e)) "pollingTrackerBase" "pollForStatus" none
          "failed to create HTTP request" [])
    | none ↦ elim (create_preparer decorators (get_request uri)) [
      | ok req ↦ ok req
      | err e ↦ err (
          new_error_with_error (original e) "pollingTrackerBase" "pollForStatus" none
            "failed preparing HTTP request" [])
      | panic ↦ panic
    ]
  ]

  abbrev pub terminated : Base → Bool
  terminated s = has_terminated p s.state

  abbrev pub conclude : Exec Base Answer
  conclude s = (ok (answer (terminated s) (polling_error s)), s)

  -- `updatePollingMethod` and the last line of `DoneWithContext`
  unfoldable pub update_and_conclude : Verb → Exec Base Answer
  update_and_conclude verb =
      on_error (update_polling_method p verb) (λ e. pure (answer false (some e))) (λ _. conclude)

  unfoldable pub poll_state : Verb → Exec Base Unit
  poll_state verb =
      deref >>= λ resp. update_polling_state p (provisioning_state_applicable verb resp.status_code)

  unfoldable pub after_checks : Verb → Exec Base Answer
  after_checks verb =
      on_error (poll_state verb) (λ e. pure (answer false (some e)))
        (λ _.
          on_error (init_polling_method p) (λ e. pure (answer false (some e)))
            (λ _. update_and_conclude verb))

  -- `DoneWithContext` from `checkForErrors` on
  unfoldable pub after_poll : Verb → Exec Base Answer
  after_poll verb =
      on_error (check_for_errors p verb) (λ e s. (ok (answer (terminated s) (some e)), s))
        (λ _. after_checks verb)

  -- `DoneWithContext` from `sender.Do` on
  unfoldable pub after_send : Verb → Reply → Exec Base Answer
  after_send verb reply =
      on_error (accept_reply p reply) (λ e. pure (answer false (some e))) (λ _. after_poll verb)

  module _ {W : Type 0} (send : W → Request → Reply × W)
      (decorators : List (PrepareDecorator Request)) where
    abbrev pub with_base : W → Tracker → Result Answer × Base → Result Answer × Session W
    with_base w t (r, s) = (r, record { tracker = some (record t { base = s }); world = w })

    unfoldable pub poll : Tracker → W → Result Request → Result Answer × Session W
    poll t w (err e) = (ok (answer false (some e)), record { tracker = some t; world = w })
    poll t w panic = (panic, record { tracker = some t; world = w })
    poll t w (ok req) =
        let (reply, w') = send w req in with_base w' t (after_send t.verb reply t.base)

    unfoldable pub done_tracker : Tracker → W → Result Answer × Session W
    done_tracker t w =
        if terminated t.base
        then (ok (answer true (polling_error t.base)), record { tracker = some t; world = w })
        else poll t w (prepare_poll decorators t.base.uri)

    unfoldable pub done_with_context : Session W → Result Answer × Session W
    done_with_context s = elim s.tracker [
      | none ↦
          (ok (answer false (some (new_error "Future" "Done" "future is not initialized" []))), s)
      | some t ↦ done_tracker t s.world
    ]

-- `Response`, `Status`, `PollingMethod` and `PollingURL`: nil, empty or unknown with no tracker
unfoldable pub response : Option Tracker → Option Response
response none = none
response (some t) = t.base.resp

unfoldable pub status : Option Tracker → String
status none = ""
status (some t) = t.base.state

unfoldable pub polling_method : Option Tracker → PollingMethod
polling_method none = unknown
polling_method (some t) = t.base.pm

unfoldable pub polling_url : Option Tracker → String
polling_url none = ""
polling_url (some t) = t.base.uri

-- What `GetResult` returns.
pub data Got : Type 0 where
  got : Option Response → Option Error → Got
  got_panic : Got

module _ (p : Platform) where
  -- A Retry-After that is no number of seconds panics.
  retry_delay : String → Result (Option ℤ)
  retry_delay retry =
      if is_empty retry
      then ok none
      else elim (p.parse_duration (retry <> "s")) [ none ↦ panic | some d ↦ ok (some d) ]

  -- `none` is the pair of zero and false
  unfoldable pub get_polling_delay : Option Tracker → Result (Option ℤ)
  unfolding retry_delay response
  get_polling_delay f = elim (response f) [
    | none ↦ ok none
    | some resp ↦ retry_delay (resp.header "Retry-After")
  ]

  -- the body of the final GET's response, read and put back
  keep_body : Reply → Got
  keep_body reply = elim reply.failure [
    | some e ↦ got reply.answer (some e)
    | none ↦ elim reply.answer [
      | none ↦ got_panic
      | some resp ↦ elim resp.body [
        | some (broken e) ↦ got (some resp) (some (external e))
        | some (readable b) ↦ got (some (record resp { body = some (readable b) })) none
        | none ↦ got (some resp) none
      ]
    ]
  ]

  result_without_url : Base → Got
  result_without_url s =
      let missing =
        got none (some (new_error "Future" "GetResult" "missing URL for retrieving result" [])) in
      elim s.resp [
        | none ↦ missing
        | some resp ↦ if has_succeeded p s.state then got (some resp) none else missing
      ]

  module _ {W : Type 0} (send : W → Request → Reply × W) where
    fetch : String → W → Got × W
    unfolding keep_body
    fetch uri w = elim (p.new_request_error uri) [
      | some e ↦ (got none (some (external e)), w)
      | none ↦ let (reply, w') = send w (get_request uri) in (keep_body reply, w')
    ]

    unfoldable pub get_result : Session W → Got × W
    unfolding fetch result_without_url
    get_result s = elim s.tracker [
      | none ↦ (got_panic, s.world)
      | some t ↦
          if is_empty t.base.final_get_uri
          then (result_without_url t.base, s.world)
          else fetch t.base.final_get_uri s.world
    ]
