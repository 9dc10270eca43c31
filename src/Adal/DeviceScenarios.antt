-- ===== src/Adal/DeviceScenarios.antt =====
-- autorest/adal: runs of goroutines and of the device flow.
use go_autorest.Prelude.{
  ℕ, ◌+◌, ◌-◌, Bool-cases, inl, inr, ◌≤◌, ◌<◌, ◌≡◌, refl, true, none, some, [], ltb, str_eq,
  if◌then◌else◌, arith, pos,
}
use go_autorest.Http.{readable}
use go_autorest.Platform.{decoded}
use go_autorest.Adal.Types.{Token, new_token, Env, will_expire_in, expires, is_blank}
use go_autorest.Adal.Goroutines.{
  calling, reading, has_read, waiting, announced, locked, refreshing, Shared, at, Lasts, enters,
  reads, finds_stale, announces, locks, begins, Reach, here, next,
}
use go_autorest.Adal.OneRefresh.{Holds, refreshed_once}
use go_autorest.Adal.Progress.{Advance, calls_go_on}
use go_autorest.Adal.Device.{
  DeviceCode, TokenError, DeviceEnv, take_code, initiate_device_auth, take_device_token,
  check_for_user_completion, wait_for_user_completion,
}
use go_autorest.Adal.Waiting.{Stops, Paced, waits-Paced}
use go_autorest.Adal.Flow.{Exchanged, device_flow-Exchanged}
use go_autorest.Adal.Scenarios.{env_of, config, answer_with}

-- tokens last until 2000 nanoseconds, and a zero token is expired
abbrev clock : Env ℕ
clock = record (env_of 200) {
  nanoseconds = λ s. if str_eq s "2" then some (pos 2000) else some (pos 0);
}

abbrev long_token : Token
long_token = record new_token { expires_on = "2" }

-- every goroutine is about to call
abbrev start : Shared
start = record {
  now = 0;
  token = new_token;
  readers = [];
  writer = none;
  place = λ i. calling;
  begun = 0;
  failures = 0;
}

-- Goroutines 0 and 1 find the token stale; 0 refreshes it, and 1 waits for the lock.
abbrev both_read : Shared
both_read = record start {
  place =
      at (at (at (at start.place 0 reading) 1 reading) 0 (has_read new_token)) 1
        (has_read new_token);
}

both_read-Reach : Reach clock 100 1000 (Lasts clock 100 1000) start both_read
both_read-Reach =
    next (next (next (next here (enters 0 refl refl)) (enters 1 refl refl)) (reads 0 refl))
      (reads 1 refl)

abbrev both_stale : Shared
both_stale = record both_read { place = at (at both_read.place 0 waiting) 1 waiting }

both_stale-Reach : Reach clock 100 1000 (Lasts clock 100 1000) start both_stale
unfolding will_expire_in expires new_token
both_stale-Reach =
    next (next both_read-Reach (finds_stale 0 new_token refl refl))
      (finds_stale 1 new_token refl refl)

abbrev one_refreshes : Shared
one_refreshes = record both_stale {
  place = at (at (at both_stale.place 0 announced) 0 locked) 0 refreshing;
  writer = some 0;
  begun = 1;
}

one_refreshes-Reach : Reach clock 100 1000 (Lasts clock 100 1000) start one_refreshes
unfolding will_expire_in expires new_token
one_refreshes-Reach =
    next (next (next both_stale-Reach (announces 0 refl refl)) (locks 0 refl refl))
      (begins 0 refl refl)

refreshed_once_example :
    ((i j : ℕ) → Holds (one_refreshes.place i) → Holds (one_refreshes.place j) → i ≡ j)
    × (one_refreshes.begun ≤ one_refreshes.failures + 1)
refreshed_once_example =
    refreshed_once clock 100 1000 start one_refreshes (λ i q. q) refl (omega arith)
      one_refreshes-Reach

calls_go_on_example : Advance clock 100 1000 (Lasts clock 100 1000) one_refreshes
calls_go_on_example =
    calls_go_on clock 100 1000 (Lasts clock 100 1000) start one_refreshes 1 refl refl
      one_refreshes-Reach (λ e. cc)

abbrev device_code : DeviceCode
device_code = record {
  device_code = some "code";
  user_code = some "user";
  verification_url = some "url";
  expires_in = some 900;
  interval = some 5;
  message = none;
  resource = "resource";
  oauth_config = config;
  client_id = "client";
}

abbrev no_token_error : TokenError
no_token_error = record {
  error = none;
  error_codes = [];
  error_description = none;
  timestamp = none;
  trace_id = none;
}

-- the server gives a token once time has come to 1, and is asked to wait before that
abbrev device : DeviceEnv ℕ
device = record {
  env = record (env_of 200) {
    send = λ w r. (
      record {
        answer = some (record (answer_with 200) {
          body = some (readable (if ltb w 2 then "wait" else "tok"));
        });
        failure = none;
      },
      "",
      w,
    );
    wait = λ w d. (true, w + 1);
  };
  unmarshal_code = λ s. decoded device_code;
  unmarshal_device_token = λ s.
      if str_eq s "wait"
      then decoded (record {
        token = new_token;
        token_error = record no_token_error { error = some "authorization_pending" };
      })
      else decoded (record { token = long_token; token_error = no_token_error });
}

waits-Paced_example : Paced 5000000000 (wait_for_user_completion device 4 device_code 0).1.waited
waits-Paced_example = waits-Paced device 4 device_code 0 5 refl (omega arith) (omega arith)

device_flow_example : Exchanged device config "client" "resource" 0 2 device_code long_token
unfolding initiate_device_auth take_code check_for_user_completion take_device_token is_blank
device_flow_example =
    device_flow-Exchanged device config "client" "resource" 0 2 device_code long_token refl refl

-- after time 2 the check gives a token, so at most 2 rounds are left
pending_drops :
    (w d : ℕ)
    → let x = check_for_user_completion device device_code w in
      ¬ Stops x.0 → 2 - (device.env.wait x.1 d).1 < 2 - w
unfolding check_for_user_completion take_device_token is_blank
pending_drops w d h = elim (Bool-cases (ltb w 2)) [
  | inl e ↦ ground arith
  | inr e ↦ absurd (let k = rw e at h in k tt)
]
