-- ===== src/Respond/Decorators.antt =====
-- autorest/responder.go: the decorators of responders.
use Prim.Native.String.{◌++◌}
use go_autorest.Prelude.{ℕ, String, true, Option, none, some, List, [], ◌∷◌, if◌then◌else◌}
use go_autorest.Http.{contains_int}
use go_autorest.Adal.Types.{is_blank}
use go_autorest.Respond.Body.{
  Body, nil_body, memory, Answer, Failure, plain, unexpected_status, Held, Ended, done, fails,
  panics, Responder, RespondDecorator, then_if_done, with_body, read_then, close_body, trim_bom,
}

-- Decoding into a value: json.Unmarshal and xml.Unmarshal, which may change the value before they
-- fail, with an error's text; the bytes.
pub record Codec (T : Type 0) : Type 0 where
  pub unmarshal_json : String → T → Option String × T
  pub unmarshal_xml : String → T → Option String × T
  pub of_bytes : String → T → T

abbrev pub read_failed : String → Failure
read_failed e = plain ("Error occurred reading http.Response#Body - Error = '" ++ (e ++ "'"))

abbrev pub status_failure : Answer → Option String → Failure
status_failure a body = unexpected_status a.request_method a.request_url a.status a.status_code body

module _ {T : Type 0} where
  unfoldable pub by_ignoring : RespondDecorator T
  by_ignoring r s = r s

  abbrev pub copying : Body → Responder T
  copying nil_body s = (done, s)
  copying b s = (done, record s { answer = record s.answer { tees = true } })

  unfoldable pub by_copying : RespondDecorator T
  by_copying r s = then_if_done (r s) (λ s'. copying s'.answer.body s')

  abbrev pub discarded : String × Option String → Responder T
  discarded (text, none) s = (done, s)
  discarded (text, some e) s = (fails (plain ("Error discarding the response body: " ++ e)), s)

  abbrev pub discarding : Body → Responder T
  discarding nil_body s = (done, s)
  discarding b s = read_then b s discarded

  unfoldable pub by_discarding_body : RespondDecorator T
  by_discarding_body r s = then_if_done (r s) (λ s'. discarding s'.answer.body s')

  -- the end, unless the close fails
  abbrev pub closed_by : Ended → Option String × Held T → Ended × Held T
  closed_by e (none, s) = (e, s)
  closed_by e (some x, s) = (fails (plain ("Error closing the response body: " ++ x)), s)

  abbrev pub close_after : Ended → Body → Responder T
  close_after e nil_body s = (e, s)
  close_after e b s = closed_by e (close_body b s)

  abbrev pub closing : Ended × Held T → Ended × Held T
  closing (done, s) = close_after done s.answer.body s
  closing (fails e, s) = close_after (fails e) s.answer.body s
  closing (panics, s) = (panics, s)

  unfoldable pub by_closing : RespondDecorator T
  by_closing r s = closing (r s)

  abbrev pub closing_if_error : Ended × Held T → Ended × Held T
  closing_if_error (done, s) = (done, s)
  closing_if_error (fails e, s) = close_after (fails e) s.answer.body s
  closing_if_error (panics, s) = (panics, s)

  unfoldable pub by_closing_if_error : RespondDecorator T
  by_closing_if_error r s = closing_if_error (r s)

  abbrev pub unmarshalled : String → String → Option String × T → Responder T
  unmarshalled format text (none, v) s = (done, record s { value = v })
  unmarshalled format text (some e, v) s = (
    fails (
        plain (
          "Error occurred unmarshalling "
          ++ (format
              ++ (" - Error = '" ++ (e ++ ("' " ++ (format ++ (" = '" ++ (text ++ "'"))))))))),
    record s { value = v },
  )

  module _ (codec : Codec T) where
    abbrev pub take_bytes : String × Option String → Responder T
    take_bytes (text, none) s = (done, record s { value = codec.of_bytes text s.value })
    take_bytes (text, some e) s = (fails (read_failed e), s)

    unfoldable pub by_unmarshalling_bytes : RespondDecorator T
    by_unmarshalling_bytes r s = then_if_done (r s) (λ s'. read_then s'.answer.body s' take_bytes)

    -- a blank text is not decoded
    abbrev pub take_json : String × Option String → Responder T
    take_json (text, none) s =
        let b = trim_bom text in
        if is_blank b then (done, s) else unmarshalled "JSON" b (codec.unmarshal_json b s.value) s
    take_json (text, some e) s = (fails (read_failed e), s)

    unfoldable pub by_unmarshalling_json : RespondDecorator T
    by_unmarshalling_json r s = then_if_done (r s) (λ s'. read_then s'.answer.body s' take_json)

    abbrev pub take_xml : String × Option String → Responder T
    take_xml (text, none) s = unmarshalled "Xml" text (codec.unmarshal_xml text s.value) s
    take_xml (text, some e) s = (fails (read_failed e), s)

    unfoldable pub by_unmarshalling_xml : RespondDecorator T
    by_unmarshalling_xml r s = then_if_done (r s) (λ s'. read_then s'.answer.body s' take_xml)

  -- the body is read, in vain or not, closed, and replaced by what was read
  abbrev pub unexpected_read : Body → String × Option String → Responder T
  unexpected_read b (text, e) s =
      (fails (status_failure s.answer (some text)), with_body (memory text) (close_body b s).1)

  abbrev pub unexpected : Body → Responder T
  unexpected nil_body s = (fails (status_failure s.answer none), s)
  unexpected b s = read_then b s (unexpected_read b)

  unfoldable pub with_error_unless_status_code : List ℕ → RespondDecorator T
  with_error_unless_status_code codes r s = then_if_done (r s) (λ s'.
      if contains_int codes s'.answer.status_code then (done, s') else unexpected s'.answer.body s')

  unfoldable pub with_error_unless_ok : RespondDecorator T
  with_error_unless_ok = with_error_unless_status_code (200 ∷ [])
