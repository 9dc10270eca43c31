-- ===== src/Respond/Explained.antt =====
-- autorest/azure/azure.go: what the errors of `WithErrorUnlessStatusCode` say.
use go_autorest.Prelude.{
  ℕ, String, Bool, true, false, Option, none, some, List, [], ◌∷◌, ◌≡◌, refl, sym, ap, subst,
  if-intro, is_empty, if◌then◌else◌,
}
use go_autorest.Json.{str, Fields, end, field}
use go_autorest.Http.{contains_int}
use go_autorest.Errors.{ServiceError}
use go_autorest.Platform.{Decoded, decoded, malformed}
use go_autorest.Respond.Body.{
  Body, nil_body, server_body, memory, Answer, RequestError, Failure, request_error, Held, Ended,
  done, fails, panics, Responder, then_if_done,
}
use go_autorest.Respond.Azure.{
  Decoding, Decoders, body_text, unknown_error, raw_details, cannot_parse, from_raw, with_message,
  from_bare, from_service, from_decoding, is_xml, azure_error, azure_error_unless_status_code,
}

-- What a request's error is taken from: the service error that `x`, decoded from the body, has; or
-- the body decoded as a service error, of which `text` was read; or neither.
pub data IsService (d : Decoders) (xml : Bool) (x : Decoding) (text : String)
    : ServiceError → Type 0 where
  member : (se : ServiceError) → x.service_error ≡ some se → IsService d xml x text se
  bare :
      (se : ServiceError)
      → x.service_error ≡ none
      → d.service_error xml text ≡ decoded (some se)
      → IsService d xml x text se
  neither :
      x.service_error ≡ none
      → d.service_error xml text ≡ decoded none
      → IsService d xml x text
          (unknown_error (some (field "HttpResponse.Body" (str text) end ∷ [])))

-- a `RequestError` with the service error and the response's request id
abbrev pub HasService : Answer → RequestError → ServiceError → Type 0
HasService a re se = (re.service_error ≡ some se) × (re.request_id ≡ a.header "x-ms-request-id")

-- What the error says where a decoder gives `read` of the body: that the body cannot be parsed,
-- only where one of its decodings fails; the service error that the body has, if that has a
-- message; or an unknown error with the body's fields as its details.
pub data IsExplained (d : Decoders) (xml : Bool) (a : Answer) (read : Decoded Decoding × String)
    : Failure → Type 0 where
  unparsed :
      (e text : String)
      → read ≡ (malformed e, text)
      → IsExplained d xml a read (cannot_parse d text e)
  unparsed_service :
      (x : Decoding) (e text : String)
      → read ≡ (decoded x, text)
      → x.service_error ≡ none
      → d.service_error xml text ≡ malformed e
      → IsExplained d xml a read (cannot_parse d text e)
  unparsed_details :
      (x : Decoding) (se : ServiceError) (e text : String)
      → read ≡ (decoded x, text)
      → IsService d xml x text se
      → is_empty se.message ≡ true
      → d.raw_body xml text ≡ malformed e
      → IsExplained d xml a read (cannot_parse d text e)
  told :
      (re : RequestError) (x : Decoding) (se : ServiceError) (text : String)
      → read ≡ (decoded x, text)
      → IsService d xml x text se
      → is_empty se.message ≡ false
      → HasService a re se
      → IsExplained d xml a read (request_error re)
  detailed :
      (re : RequestError) (x : Decoding) (se : ServiceError) (fs : Fields) (text : String)
      → read ≡ (decoded x, text)
      → IsService d xml x text se
      → is_empty se.message ≡ true
      → d.raw_body xml text ≡ decoded fs
      → HasService a re (unknown_error (raw_details fs))
      → IsExplained d xml a read (request_error re)

-- how the error test ends on the answer `a`
pub data IsTested (d : Decoders) (a : Answer) : Ended → Type 0 where
  no_body : a.body ≡ nil_body → IsTested d a panics
  tells :
      (text : String) (fault : Option String) (e : Failure)
      → body_text a.body a.server ≡ (text, fault)
      → IsExplained d (is_xml d a) a (d.request_error (is_xml d a) text fault) e
      → IsTested d a (fails e)

module _ (d : Decoders) where
  module _ (xml : Bool) (a : Answer) (x : Decoding) (text : String)
      (read : Decoded Decoding × String) (reads : read ≡ (decoded x, text)) where
    from_raw-IsExplained :
        (se : ServiceError) (o : Decoded Fields)
        → IsService d xml x text se
        → is_empty se.message ≡ true
        → d.raw_body xml text ≡ o
        → IsExplained d xml a read (from_raw d a x.status_code text o)
    from_raw-IsExplained se (malformed e) s m r = unparsed_details x se e text reads s m r
    from_raw-IsExplained se (decoded fs) s m r = detailed _ x se fs text reads s m r (refl, refl)

    with_message-IsExplained :
        (se : ServiceError)
        → IsService d xml x text se
        → IsExplained d xml a read (with_message d a xml x.status_code text se)
    unfolding with_message
    with_message-IsExplained se s =
        if-intro (IsExplained d xml a read) (is_empty se.message)
          (λ m. from_raw-IsExplained se (d.raw_body xml text) s m refl)
          (λ m. told _ x se text reads s m (refl, refl))

    from_bare-IsExplained :
        (o : Decoded (Option ServiceError))
        → x.service_error ≡ none
        → d.service_error xml text ≡ o
        → IsExplained d xml a read (from_bare d a xml x.status_code text o)
    from_bare-IsExplained (malformed e) n r = unparsed_service x e text reads n r
    from_bare-IsExplained (decoded none) n r = with_message-IsExplained _ (neither n r)
    from_bare-IsExplained (decoded (some se)) n r = with_message-IsExplained se (bare se n r)

    from_service-IsExplained :
        (o : Option ServiceError)
        → x.service_error ≡ o
        → IsExplained d xml a read (from_service d a xml x.status_code text o)
    from_service-IsExplained none n = from_bare-IsExplained (d.service_error xml text) n refl
    from_service-IsExplained (some se) r = with_message-IsExplained se (member se r)

  from_decoding-IsExplained :
      (xml : Bool) (a : Answer) (text : String) (x : Decoded Decoding)
      → IsExplained d xml a (x, text) (from_decoding d a xml text x)
  from_decoding-IsExplained xml a text (malformed e) = unparsed e text refl
  from_decoding-IsExplained xml a text (decoded x) =
      from_service-IsExplained xml a x text (decoded x, text) refl x.service_error refl

  module _ {T : Type 0} where
    azure_error-IsTested :
        (b : Body) (s : Held T) → s.answer.body ≡ b → IsTested d s.answer (azure_error d b s).0
    azure_error-IsTested nil_body s e = no_body e
    azure_error-IsTested server_body s e =
        tells _ _ _ (ap (λ b. body_text b s.answer.server) e)
          (from_decoding-IsExplained (is_xml d s.answer) s.answer _ _)
    azure_error-IsTested (memory text) s e =
        tells _ _ _ (ap (λ b. body_text b s.answer.server) e)
          (from_decoding-IsExplained (is_xml d s.answer) s.answer _ _)

    -- `WithErrorUnlessStatusCode` of azure, after a responder that returns no error and leaves a
    -- response whose status is not among the codes: it panics if the body is nil; it says that the
    -- response cannot be parsed only where decoding what can be read of the body, its bare service
    -- error or its details fails, with that failure; else it fails with a `RequestError` that has
    -- the response's request id and the service error decoded from the body, if that has a message,
    -- and an unknown error with the body's fields as its details if not.
    pub azure_unless-explains :
        (codes : List ℕ) (r : Responder T) (s s' : Held T)
        → r s ≡ (done, s')
        → contains_int codes s'.answer.status_code ≡ false
        → IsTested d s'.answer (azure_error_unless_status_code d codes r s).0
    unfolding azure_error_unless_status_code
    azure_unless-explains codes r s s' e c =
        subst
          (λ o.
            IsTested d s'.answer
              (then_if_done o (λ s'.
                if contains_int codes s'.answer.status_code
                then (done, s')
                else azure_error d s'.answer.body s')).0)
          (sym e)
          (if-intro (λ (o : Ended × Held T). IsTested d s'.answer o.0)
            (contains_int codes s'.answer.status_code) (λ t. absurd (cc))
            (λ _. azure_error-IsTested s'.answer.body s' refl))
