-- ===== src/Registration/Scenarios.antt =====
-- Runs of senders that register a resource provider.
use go_autorest.Prelude.{
  ℕ, suc, String, true, false, none, some, [], ◌∷◌, ◌≡◌, ◌≢◌, refl, inr, if◌then◌else◌, ltb, pos,
  arith,
}
use go_autorest.Json.{null, str, end, field}
use go_autorest.Http.{contains_int}
use go_autorest.Errors.{ServiceError}
use go_autorest.Platform.{decoded}
use go_autorest.Retriable.{Bytes, stream}
use go_autorest.Retriable.Resend.{copying}
use go_autorest.Sender.{Sending}
use go_autorest.Sender.Bodies.{Sends}
use go_autorest.Senders.{Url}
use go_autorest.Respond.Body.{server_body, Answer}
use go_autorest.Respond.Decorators.{Codec}
use go_autorest.Respond.Azure.{Decoding, Decoders}
use go_autorest.Registration.Requests.{UrlLibrary, get_subscription, after_subscriptions}
use go_autorest.Registration.Register.{
  Outcome, answered, Client, Services, State, out_of_fuel, register,
}
use go_autorest.Registration.Retry.{Original, returned, Codecs, do_retry_with_registration}
use go_autorest.Registration.Registered.{CancelsWithError, IsSettled, register-IsSettled}
use go_autorest.Registration.Ending.{KeepsTime, register_ends}
use go_autorest.Registration.Retried.{IsAnswered, retry-IsAnswered, retry-Sends}
use go_autorest.Adal.Types.{is_blank}
use go_autorest.Errors.{new_error, new_error_with_error}
use go_autorest.Json.{get_field}
use go_autorest.Preparers.{create_preparer, decorate_preparer}
use go_autorest.Preparers.Outgoing.{ensure_value_string, ensure_value_strings, with_method}
use go_autorest.Preparers.Queries.{
  add_parameters, map_to_values, query_set, unescape_values, use_query_parameters, values_of,
  with_query_parameters,
}
use go_autorest.Preparers.Templates.{
  parse_url, substitute, use_path_parameters, with_base_url, with_path_parameters,
}
use go_autorest.Preparers.Text.{split_on, trim_right, replacing, trim_slashes}
use go_autorest.Registration.Register.{after_poll, after_polling, poll, register_at, respond}
use go_autorest.Registration.Requests.{get_provider, poll_request, register_request}
use go_autorest.Registration.Retry.{after_decoding, after_send, attempts, send_prepared}
use go_autorest.Respond.Azure.{azure_error_unless_status_code, with_message}
use go_autorest.Respond.Body.{close_body, read_server, read_then, trim_bom}
use go_autorest.Respond.Chain.{apply, create_responder, decorate_responder}
use go_autorest.Respond.Decorators.{
  by_closing, by_closing_if_error, by_copying, by_discarding_body, by_ignoring,
  by_unmarshalling_bytes, by_unmarshalling_json, by_unmarshalling_xml,
  with_error_unless_status_code,
}
use go_autorest.Retriable.{consume, keep, prepare, prepare_from_byte_reader, readable_body, restore}
use go_autorest.SharedKey.Sorting.{has_prefix}

subscription : get_subscription "/subscriptions/42/resourceGroups/g" ≡ "42"
unfolding get_subscription after_subscriptions split_on
subscription = refl

abbrev url_of : String → Url
url_of u = record { scheme = "https"; raw_query = ""; rest = u }

abbrev lib : UrlLibrary
lib = record {
  urls = record {
    url_parse = λ u. inr (url_of u);
    reencode = λ q. inr q;
    url_string = λ u. u.rest;
    parse_duration = λ t. none;
  };
  queries = record { query = λ u. []; encode = λ q. "encoded"; unescape = λ v. inr v };
  escape = λ s. s;
}

abbrev state_codec : Codec State
state_codec = record {
  unmarshal_json = λ text v. (none, some text);
  unmarshal_xml = λ text v. (none, some text);
  of_bytes = λ text v. some text;
}

abbrev missing : ServiceError
missing = record {
  code = "MissingSubscriptionRegistration";
  message = "not registered";
  target = none;
  details = some (field "target" (str "Microsoft.Test") end ∷ []);
  inner_error = none;
  additional_info = none;
}

abbrev conflicted : Decoding
conflicted = record { service_error = some missing; status_code = null }

abbrev error_codec : Codec Decoding
error_codec = record {
  unmarshal_json = λ text v. (none, conflicted);
  unmarshal_xml = λ text v. (none, conflicted);
  of_bytes = λ text v. v;
}

abbrev decoders : Decoders
decoders = record {
  request_error = λ is_xml text e. (decoded conflicted, text);
  service_error = λ is_xml text. decoded none;
  raw_body = λ is_xml text. decoded end;
  contains = λ text part. false;
  quote = λ text. text;
}

abbrev answer : ℕ → String → Answer
answer code text = record {
  status_code = code;
  status = "of the test";
  header = λ name. "";
  request_method = "GET";
  request_url = "https://example.com";
  body = server_body;
  tees = false;
  server = record { left = text; fails = none; closed = false; close_error = none };
}

-- a provider that is registered from the second tick of the clock on, which is the world
abbrev services : Services ℕ
services = record {
  send = λ r w. (answered (answer 200 (if ltb 1 w then "Registered" else "Registering")), w);
  now = λ w. w;
  delay_with_retry_after = λ a w. (false, w);
  delay_for_backoff = λ n w. (true, suc w);
  ctx_err = λ w. "canceled";
}

abbrev client : Client
client = record {
  retry_attempts = 3;
  polling_duration = 5;
  polling_delay = 1;
  skip_registration = false;
}

never_canceled : CancelsWithError lib state_codec decoders services client
never_canceled = record { cancels = λ w e. refl }

keeps_time : KeepsTime lib state_codec decoders services client
keeps_time = record {
  sends = λ r w. omega arith;
  waits = λ a w. omega arith;
  waits_on = λ a w e. absurd (cc);
  backs_off = λ w e. omega arith;
}

register-IsSettled_example : IsSettled lib state_codec decoders services client (
    register lib state_codec decoders services client 6 "https://example.com"
      "/subscriptions/42/resourceGroups/g" conflicted 0)
register-IsSettled_example =
    register-IsSettled lib state_codec decoders services client never_canceled 6
      "https://example.com" "/subscriptions/42/resourceGroups/g" conflicted 0

register_ends_example :
    (register lib state_codec decoders services client 6 "https://example.com"
      "/subscriptions/42/resourceGroups/g" conflicted 0).0
    ≢ out_of_fuel
register_ends_example =
    register_ends lib state_codec decoders services client keeps_time (omega arith) 6
      "https://example.com" "/subscriptions/42/resourceGroups/g" conflicted 0 (omega arith)

-- a conflict until the provider is registered
abbrev service : ℕ → Bytes → Outcome × Bytes × ℕ
service w b = (answered (if ltb 1 w then answer 200 "{}" else answer 409 "{}"), [], w)

abbrev codecs : Codecs
codecs = record { state = state_codec; errors = error_codec; decoders = decoders }

abbrev original : Original
original = record {
  is_xml = false;
  base = "https://example.com";
  path = "/subscriptions/42/resourceGroups/g";
}

abbrev sending : Sending ℕ
sending = record {
  request = record {
    body = stream (1 ∷ 2 ∷ []) none;
    get_body = none;
    content_length = pos 2;
    rc = none;
    br = none;
  };
  world = 0;
  sent = [];
}

sending-Sends : Sends (1 ∷ 2 ∷ []) sending
sending-Sends = record { resends = copying refl refl refl refl refl; all_are = tt }

retry-IsAnswered_example :
    IsAnswered lib codecs services client service 6 original
      (do_retry_with_registration lib codecs services client service 6 original sending).0
retry-IsAnswered_example =
    retry-IsAnswered lib codecs services client service 6 original 2 sending refl

retry-Sends_example :
    Sends
      (1 ∷ 2 ∷ [])
      (do_retry_with_registration lib codecs services client service 6 original sending).1
retry-Sends_example =
    retry-Sends lib codecs services client service 6 original (1 ∷ 2 ∷ []) sending sending-Sends

-- registered by the second poll, the request is sent again
registers :
    let (reply, s) =
      do_retry_with_registration lib codecs services client service 6 original sending in
    (reply ≡ returned (some (answer 200 "{}")) none)
    × (s.sent ≡ (1 ∷ 2 ∷ []) ∷ (1 ∷ 2 ∷ []) ∷ [])
    × (s.world ≡ 2)
unfolding do_retry_with_registration is_blank new_error new_error_with_error contains_int get_field
    create_preparer decorate_preparer ensure_value_string ensure_value_strings with_method
    add_parameters map_to_values query_set unescape_values use_query_parameters values_of
    with_query_parameters parse_url substitute use_path_parameters with_base_url
    with_path_parameters replacing trim_slashes after_poll after_polling poll register register_at
    respond after_subscriptions get_provider get_subscription poll_request register_request split_on
    trim_right after_decoding after_send attempts send_prepared azure_error_unless_status_code
    with_message close_body read_server read_then trim_bom apply create_responder decorate_responder
    by_closing by_closing_if_error by_copying by_discarding_body by_ignoring by_unmarshalling_bytes
    by_unmarshalling_json by_unmarshalling_xml with_error_unless_status_code consume keep prepare
    prepare_from_byte_reader readable_body restore has_prefix
registers = (refl, refl, refl)
