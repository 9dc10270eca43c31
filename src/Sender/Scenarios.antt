-- ===== src/Sender/Scenarios.antt =====
-- Runs of the retry loops, and the theorems at them.
use go_autorest.Prelude.{
  ℕ, ◌+◌, ◌≡◌, refl, true, none, some, [], ◌∷◌, pos, arith, ltb, if◌then◌else◌,
}
use go_autorest.Http.{Response, response_has_status_code, contains_int}
use go_autorest.Errors.{Reply, external, is_token_refresh_error}
use go_autorest.Retriable.{
  Bytes, stream, new_retriable_request, readable_body, prepare, restore, keep,
  prepare_from_byte_reader, consume,
}
use go_autorest.Retriable.Resend.{Resends, Ready, copying, prepare-Ready}
use go_autorest.Sender.{
  Env, Sending, reply, attempt, after_wait, retry_round, retry_for_attempts, do_retry_for_attempts,
  delay_with_retry_after, backoff_delay, second,
}
use go_autorest.Sender.Status.{
  StatusConfig, status_round, status_loop, after_retry_after, after_backoff,
  do_retry_for_status_codes,
}
use go_autorest.Sender.Bodies.{Sends, attempts_send_same}
use go_autorest.Sender.Bounds.{EndsWithin, status_codes_ends}

-- everything that a run computes with
retrying : Unit {0}
unfolding response_has_status_code contains_int is_token_refresh_error readable_body prepare restore
    keep prepare_from_byte_reader consume attempt after_wait retry_round retry_for_attempts
    do_retry_for_attempts delay_with_retry_after backoff_delay status_round status_loop
    after_retry_after after_backoff do_retry_for_status_codes
retrying = tt

abbrev status : ℕ → Response
status code = record {
  status_code = code;
  header = λ k. "";
  body = none;
  content_length = pos 0;
  request_method = "PUT";
  request_url = "https://resource";
}

-- the first n sends find the server busy; each reads its body to the end
abbrev busy_for : ℕ → ℕ → Bytes → Reply × Bytes × ℕ
busy_for n w b = (
  if ltb w n
      then reply (some (status 503)) (some (external "busy"))
      else reply (some (status 200)) none,
  [],
  w + 1,
)

abbrev busy_env : ℕ → Env ℕ
busy_env n = record {
  transmit = busy_for n;
  wait = λ w d. (true, w);
  ctx_err = λ w. none;
  atoi = λ s. pos 0;
  parse_rfc1123 = λ s. none;
  now = λ w. w;
}

abbrev payload : Bytes
payload = 1 ∷ 2 ∷ 3 ∷ []

-- a body with no GetBody, so that the first attempt copies it
abbrev upload : Sending ℕ
upload = record {
  request = new_retriable_request (stream payload none) none (pos 3);
  world = 0;
  sent = [];
}

upload-Resends : Resends payload upload.request
upload-Resends = copying refl refl refl refl refl

retried_twice : do_retry_for_attempts (busy_env 2) 5 second upload ≡ (
  reply (some (status 200)) none,
  record (do_retry_for_attempts (busy_env 2) 5 second upload).1 {
    world = 3;
    sent = payload ∷ payload ∷ payload ∷ [];
  },
)
unfolding retrying
retried_twice = refl

prepare-Ready_example : Ready payload (prepare upload.request)
prepare-Ready_example = prepare-Ready payload upload.request upload-Resends

attempts_send_same_example : Sends payload (do_retry_for_attempts (busy_env 2) 5 second upload).1
attempts_send_same_example =
    attempts_send_same (busy_env 2) payload 5 second upload upload-Resends refl

abbrev retry_503 : StatusConfig
retry_503 = record {
  count429 = true;
  attempts = 2;
  backoff = second;
  codes = 503 ∷ 429 ∷ [];
  max_429_delay = 0;
}

status_codes_ends_example :
    EndsWithin
      (busy_env 9)
      retry_503
      refl
      3
      (do_retry_for_status_codes (busy_env 9) retry_503 4 0 upload)
status_codes_ends_example = status_codes_ends (busy_env 9) retry_503 refl 4 0 upload (omega arith)
