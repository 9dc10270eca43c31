-- ===== src/Async/Tracker.antt =====
-- autorest/azure/async.go: `pollingTrackerBase`, its polling methods, its getters, and the tests of
-- its state.
use go_autorest.Prelude.{ℕ, String, Bool, true, false, ◌||◌, Option, none, some, List, [], ◌∷◌}
use go_autorest.Json.{Fields, end}
use go_autorest.Http.{Response}
use go_autorest.Errors.{ServiceError, Error, service}
use go_autorest.Platform.{Platform}
use go_autorest.Result.{Exec, ok, panic}

-- `PollingMethodType`; `unknown` is the zero value
pub data PollingMethod : Type 0 where
  async_operation location request_uri unknown : PollingMethod

abbrev pub is_async : PollingMethod → Bool
is_async async_operation = true
is_async _ = false

abbrev pub is_unknown : PollingMethod → Bool
is_unknown unknown = true
is_unknown _ = false

-- `pollingTrackerBase`, by value: `resp` is the pointer's target, or `none` where it is nil
pub record Base : Type 0 where
  pub resp : Option Response
  pub method : String
  pub raw_body : Fields
  pub pm : PollingMethod
  pub uri : String
  pub state : String
  pub final_get_uri : String
  pub error : Option ServiceError

-- `pollingTrackerBase{resp: resp}`
abbrev pub base_of : Response → Base
base_of resp = record {
  resp = some resp;
  method = "";
  raw_body = end;
  pm = unknown;
  uri = "";
  state = "";
  final_get_uri = "";
  error = none;
}

-- The trackers of the four verbs embed the base and differ in their methods.
pub data Verb : Type 0 where
  delete patch post put : Verb

abbrev pub operation_in_progress : String
operation_in_progress = "InProgress"

abbrev pub operation_canceled : String
operation_canceled = "Canceled"

abbrev pub operation_failed : String
operation_failed = "Failed"

abbrev pub operation_succeeded : String
operation_succeeded = "Succeeded"

-- 204, 202, 201, 200
abbrev pub polling_codes : List ℕ
polling_codes = 204 ∷ 202 ∷ 201 ∷ 200 ∷ []

-- `pt.resp`, dereferenced: a nil pointer panics
abbrev pub deref : Exec Base Response
deref s = (elim s.resp [ none ↦ panic | some resp ↦ ok resp ], s)

unfoldable pub polling_error : Base → Option Error
polling_error s = elim s.error [ none ↦ none | some e ↦ some (service e) ]

pub polling_status : Base → String
polling_status s = s.state

module _ (p : Platform) where
  unfoldable pub has_failed : String → Bool
  has_failed state = p.equal_fold state operation_canceled || p.equal_fold state operation_failed

  unfoldable pub has_succeeded : String → Bool
  has_succeeded state = p.equal_fold state operation_succeeded

  unfoldable pub has_terminated : String → Bool
  has_terminated state =
      p.equal_fold state operation_canceled
      || (p.equal_fold state operation_failed || p.equal_fold state operation_succeeded)
