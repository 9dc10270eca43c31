-- ===== src/Async/Runs.antt =====
-- The responses, senders and trackers of the runs of autorest/azure/async.go.
use go_autorest.Prelude.{
  zero, suc, ◌==◌, ℕ, ◌+◌, String, Bool, true, Option, none, some, ℤ, pos, str_eq, if◌then◌else◌,
}
use go_autorest.Json.{Fields, field, end, str, obj}
use go_autorest.Http.{readable, Response, Request}
use go_autorest.Errors.{Reply, Error, external}
use go_autorest.Platform.{Platform, Decoded, decoded, malformed, ascii_fold}
use go_autorest.Async.Tracker.{base_of, async_operation, delete}
use go_autorest.Async.Create.{Tracker}
use go_autorest.Async.Future.{Session}
use go_autorest.Async.Wait.{WaitClient, CancelCtx}

-- the bodies of the runs
abbrev pub object_of : String → Decoded Fields
object_of b =
    if str_eq b "done"
    then decoded (field "status" (str "Succeeded") end)
    else if str_eq b "busy"
    then decoded (field "status" (str "InProgress") end)
    else if str_eq b "failed"
    then decoded (field "properties" (obj (field "provisioningState" (str "Failed") end)) end)
    else malformed "unexpected text"

abbrev pub plain : Platform
plain = record {
  to_upper = λ s. s;
  equal_fold = ascii_fold;
  url_parse = λ s. some (str_eq s "https://poll");
  new_request_error = λ u. none;
  unmarshal_object = object_of;
  unmarshal_error_member = λ b. decoded none;
  unmarshal_internal = λ b. malformed "no error object";
  is_null_text = λ b. str_eq b "null";
  parse_duration = λ s. some (pos 5);
}

abbrev pub no_headers : String → String
no_headers k = ""

abbrev pub async_header : String → String
async_header k = if str_eq k "Azure-Asyncoperation" then "https://poll" else ""

abbrev pub answering : ℕ → (String → String) → String → String → Response
answering code header text method = record {
  status_code = code;
  header = header;
  body = some (readable text);
  content_length = pos 4;
  request_method = method;
  request_url = "https://resource";
}

-- a DELETE that was accepted, polled at the URL of the Azure-AsyncOperation header
abbrev pub accepted : Response
accepted = record (answering 202 async_header "done" "DELETE") { content_length = pos 0 }

abbrev pub running : Tracker
running = record {
  verb = delete;
  base = record (base_of accepted) {
    method = "DELETE";
    pm = async_operation;
    uri = "https://poll";
    state = "InProgress";
  };
}

-- the service answers every poll in the same way; the world counts the polls
abbrev pub always : Option Response → Option Error → ℕ → Request → Reply × ℕ
always r e w req = (record { answer = r; failure = e }, w + 1)

abbrev pub succeeding : ℕ → Request → Reply × ℕ
succeeding = always (some (answering 200 no_headers "done" "GET")) none

abbrev pub elapsing : CancelCtx → ℕ → ℤ → ℕ → Bool × ℕ
elapsing ctx w d n = (true, w)

abbrev pub never_canceled : CancelCtx → ℕ → String
never_canceled ctx w = ""

abbrev pub client : WaitClient
client = record {
  polling_delay = pos 1;
  polling_duration = pos 0;
  retry_attempts = 2;
  retry_duration = pos 1;
}

abbrev pub waiting : Session ℕ
waiting = record { tracker = some running; world = 0 }

-- after one poll the operation has succeeded
abbrev pub finished : Session ℕ
finished = record {
  tracker = some (record running {
    base = record running.base {
      resp = some (answering 200 no_headers "done" "GET");
      raw_body = field "status" (str "Succeeded") end;
      state = "Succeeded";
    };
  });
  world = 1;
}

-- no connection
abbrev pub failing : ℕ → Request → Reply × ℕ
failing = always none (some (external "connection refused"))

-- a poll that fails with the body null
abbrev pub null_answer : Response
null_answer = answering 500 no_headers "null" "GET"

-- the operation is in progress at every poll but the last, and then there is no connection
abbrev pub in_progress : ℕ → Request → Reply × ℕ
in_progress zero req =
    (record { answer = none; failure = some (external "connection refused") }, zero)
in_progress (suc n) req = (
  record {
    answer = some (answering 200 no_headers (if n == 0 then "done" else "busy") "GET");
    failure = none;
  },
  n,
)
