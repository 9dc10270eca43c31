-- ===== src/Async/Body.antt =====
-- autorest/azure/async.go: `updateRawBody`, `updateErrorFromResponse` and `getProvisioningState`.
use go_autorest.Prelude.{String, Option, none, some, [], ◌∷◌, if◌then◌else◌, is_empty, is_zero}
use go_autorest.Json.{Json, null, str, obj, Fields, end, field, get_field, has_no_fields}
use go_autorest.Http.{Response, Body, readable, broken}
use go_autorest.Errors.{ServiceError, external, original, new_error_with_error}
use go_autorest.Platform.{Platform, Decoded, decoded, malformed}
use go_autorest.ServiceErrors.{unmarshal_service_error}
use go_autorest.Result.{Result, ok, panic, Exec, pure, raise, crash, modify, ◌>>=◌, ◌>>◌}
use go_autorest.Async.Tracker.{Base, deref}

-- `io.ReadAll(pt.resp.Body)` with the close before it deferred: a nil body panics
abbrev read_all : Option Body → Exec Base (Decoded String)
read_all none = crash
read_all (some (readable b)) = pure (decoded b)
read_all (some (broken e)) = pure (malformed e)

-- `pt.resp.Body = io.NopCloser(bytes.NewReader(b))`
abbrev put_back : Response → String → Base → Base
put_back resp b s = record s { resp = some (record resp { body = some (readable b) }) }

-- what follows `json.Unmarshal(b, &pt.rawBody)`
store_raw_body : Decoded Fields → Exec Base Unit
store_raw_body (decoded fs) = modify (λ s. record s { raw_body = fs })
store_raw_body (malformed e) = raise (
    new_error_with_error (original (external e)) "pollingTrackerBase" "updateRawBody" none
      "failed to unmarshal response body" [])

module _ (p : Platform) where
  -- the body of `if pt.resp.ContentLength != 0`
  take_raw_body : Response → Decoded String → Exec Base Unit
  unfolding store_raw_body
  take_raw_body resp (malformed e) = raise (
      new_error_with_error (original (external e)) "pollingTrackerBase" "updateRawBody" none
        "failed to read response body" [])
  take_raw_body resp (decoded b) = do
    modify (put_back resp b)
    if is_empty b then pure tt else store_raw_body (p.unmarshal_object b)

  unfoldable pub update_raw_body : Exec Base Unit
  unfolding take_raw_body
  update_raw_body = do
    modify (λ s. record s { raw_body = end })
    resp ← deref
    if is_zero resp.content_length then pure tt else do b ← read_all resp.body; take_raw_body resp b

-- what follows the label `Default`, with the error of the way to it
abbrev inner_error_of : Option String → Option Fields
inner_error_of none = none
inner_error_of (some e) = some (field "unmarshalError" (str e) end)

abbrev pub default_error : Base → Option String → ServiceError
default_error s e = record {
  code = s.state;
  message = "The async operation failed.";
  target = none;
  details = none;
  inner_error = inner_error_of e;
  additional_info = if has_no_fields s.raw_body then none else some (s.raw_body ∷ []);
}

set_default : Option String → Exec Base Unit
set_default e = modify (λ s. record s { error = some (default_error s e) })

set_if_coded : Decoded ServiceError → Exec Base Unit
unfolding set_default
set_if_coded (malformed e) = set_default (some e)
set_if_coded (decoded se) =
    if is_empty se.code then set_default none else modify (λ s. record s { error = some se })

module _ (p : Platform) where
  -- what follows `json.Unmarshal(b, &re)`. Of the literal null the second `json.Unmarshal` makes a
  -- nil pointer, whose `Code` is then read.
  decode_error : String → Decoded (Option String) → Exec Base Unit
  unfolding set_if_coded
  decode_error b (malformed e) = set_default (some e)
  decode_error b (decoded (some member)) = set_if_coded (unmarshal_service_error p member)
  decode_error b (decoded none) =
      if p.is_null_text b then crash else set_if_coded (unmarshal_service_error p b)

  take_error : Response → Decoded String → Exec Base Unit
  unfolding decode_error
  take_error resp (malformed e) = set_default (some e)
  take_error resp (decoded b) = do
    modify (put_back resp b)
    if is_empty b then set_default none else decode_error b (p.unmarshal_error_member b)

  unfoldable pub update_error_from_response : Exec Base Unit
  unfolding take_error
  update_error_from_response = do
    resp ← deref
    if is_zero resp.content_length
        then set_default none
        else do b ← read_all resp.body; take_error resp b

-- `p["provisioningState"]`, asserted to be a string
provisioning_text : Json → Result (Option String)
provisioning_text null = ok none
provisioning_text (str s) = ok (some s)
provisioning_text _ = panic

provisioning_of : Json → Result (Option String)
unfolding provisioning_text
provisioning_of null = ok none
provisioning_of (obj fs) = provisioning_text (get_field "provisioningState" fs)
provisioning_of _ = panic

unfoldable pub get_provisioning_state : Fields → Result (Option String)
unfolding provisioning_of
get_provisioning_state raw_body = provisioning_of (get_field "properties" raw_body)
