-- ===== src/Respond/Scenarios.antt =====
-- Runs of the decorated responders.
use go_autorest.Prelude.{ℕ, String, true, false, none, List, [], ◌∷◌, ◌++◌, ◌≡◌, ◌≢◌, refl, inl}
use go_autorest.Json.{null, end}
use go_autorest.Http.{contains_int}
use go_autorest.Adal.Types.{is_blank}
use go_autorest.Platform.{decoded}
use go_autorest.Respond.Body.{
  server_body, Held, done, panics, read_then, read_server, close_body, trim_bom,
}
use go_autorest.Respond.Decorators.{
  Codec, by_closing, by_unmarshalling_json, with_error_unless_status_code,
}
use go_autorest.Respond.Azure.{Decoders, azure_error_unless_status_code}
use go_autorest.Respond.Chain.{
  Decorator, closing, json, unless_status, apply, decorate_responder, create_responder,
}
use go_autorest.Respond.Closing.{respond-closes}
use go_autorest.Respond.Statuses.{respond-has_status}
use go_autorest.Respond.Explained.{IsTested, azure_unless-explains}
use go_autorest.Respond.Kept.{unless_status-presents, IsPresented}

abbrev codec : Codec String
codec = record {
  unmarshal_json = λ text v. (none, text);
  unmarshal_xml = λ text v. (none, text);
  of_bytes = λ text v. text;
}

abbrev decoders : Decoders
decoders = record {
  request_error =
      λ is_xml text e. (decoded (record { service_error = none; status_code = null }), text);
  service_error = λ is_xml text. decoded none;
  raw_body = λ is_xml text. decoded end;
  contains = λ text part. false;
  quote = λ text. text;
}

abbrev served : ℕ → Held String
served code = record {
  answer = record {
    status_code = code;
    status = "of the test";
    header = λ name. "";
    request_method = "GET";
    request_url = "https://example.com";
    body = server_body;
    tees = false;
    server = record { left = "{}"; fails = none; closed = false; close_error = none };
  };
  value = "";
  copied = "";
}

abbrev usual : List Decorator
usual = unless_status (200 ∷ []) ∷ json ∷ []

ok_decoded :
    let (e, s) = create_responder codec decoders (usual ++ closing ∷ []) (served 200) in
    (e ≡ done) × (s.value ≡ "{}") × (s.answer.server.closed ≡ true)
unfolding create_responder decorate_responder apply by_closing by_unmarshalling_json
    with_error_unless_status_code contains_int read_then read_server close_body is_blank trim_bom
ok_decoded = (refl, refl, refl)

respond-closes_example :
    ((create_responder codec decoders (usual ++ closing ∷ []) (served 500)).0 ≢ panics)
    × ((create_responder codec decoders (usual ++ closing ∷ []) (served 500)).1.answer.server.closed
        ≡ true)
respond-closes_example = respond-closes codec decoders usual [] (served 500) refl

passes :
    (create_responder codec decoders
      ([] ++ unless_status (200 ∷ []) ∷ json ∷ closing ∷ [])
      (served 200)).0
    ≡ done
unfolding create_responder decorate_responder apply by_closing by_unmarshalling_json
    with_error_unless_status_code contains_int read_then read_server close_body is_blank trim_bom
passes = refl

misses : contains_int (200 ∷ []) 404 ≡ false
unfolding contains_int
misses = refl

respond-has_status_example : contains_int (200 ∷ []) 200 ≡ true
respond-has_status_example =
    respond-has_status codec decoders (200 ∷ []) [] (json ∷ closing ∷ []) (unless_status (200 ∷ []))
      (served 200) (inl refl) passes

unless_status-presents_example :
    IsPresented codec
      (served 404)
      (with_error_unless_status_code (200 ∷ []) (λ s. (done, s)) (served 404))
unless_status-presents_example =
    unless_status-presents codec (200 ∷ []) (served 404) refl refl misses

azure_unless-explains_example :
    IsTested decoders
      (served 404).answer
      (azure_error_unless_status_code decoders (200 ∷ []) (λ s. (done, s)) (served 404)).0
azure_unless-explains_example =
    azure_unless-explains decoders (200 ∷ []) (λ s. (done, s)) (served 404) (served 404) refl misses
