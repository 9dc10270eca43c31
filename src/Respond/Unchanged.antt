-- ===== src/Respond/Unchanged.antt =====
-- autorest/responder.go, autorest/azure/azure.go: that no decorator changes the status of a response.
use go_autorest.Prelude.{
  ℕ, String, Option, none, some, List, ◌≡◌, refl, ◌∙◌, if-intro, if◌then◌else◌,
}
use go_autorest.Http.{contains_int}
use go_autorest.Adal.Types.{is_blank}
use go_autorest.Respond.Body.{
  Body, nil_body, server_body, memory, Held, Ended, done, fails, panics, Responder, then_if_done,
  copy_read, read_server, read_then, close_body, trim_bom,
}
use go_autorest.Respond.Decorators.{
  Codec, copying, discarded, discarding, close_after, closed_by, closing as closing_of,
  closing_if_error as closing_if_error_of, unmarshalled, take_bytes, take_json, take_xml,
  unexpected, unexpected_read,
}
use go_autorest.Respond.Azure.{Decoders, azure_error}

module _ {T : Type 0} where
  abbrev pub Keeps : Responder T → Type 0
  Keeps k = (s : Held T) → (k s).1.answer.status_code ≡ s.answer.status_code

  pub copy_read-Keeps :
      (text : String) (s : Held T) → (copy_read text s).answer.status_code ≡ s.answer.status_code
  copy_read-Keeps text s =
      if-intro (λ (x : Held T). x.answer.status_code ≡ s.answer.status_code) s.answer.tees
        (λ _. refl) (λ _. refl)

  pub close_body-Keeps :
      (b : Body) (s : Held T) → (close_body b s).1.answer.status_code ≡ s.answer.status_code
  unfolding close_body
  close_body-Keeps nil_body s = refl
  close_body-Keeps server_body s = refl
  close_body-Keeps (memory text) s = refl

  pub read_then-Keeps :
      (b : Body) (k : String × Option String → Responder T)
      → ((x : String × Option String) → Keeps (k x))
      → Keeps (λ s. read_then b s k)
  unfolding read_then read_server
  read_then-Keeps nil_body k h s = refl
  read_then-Keeps server_body k h s =
      if-intro
        (λ (x : (String × Option String) × Held T).
          (k x.0 x.1).1.answer.status_code ≡ s.answer.status_code)
        s.answer.server.closed (λ _. h ("", some "http: read on closed response body") s)
        (λ _.
          h (s.answer.server.left, s.answer.server.fails) _
          ∙ copy_read-Keeps s.answer.server.left _)
  read_then-Keeps (memory text) k h s = h (text, none) _ ∙ copy_read-Keeps text _

  pub copying-Keeps : (b : Body) → Keeps (copying b)
  copying-Keeps nil_body s = refl
  copying-Keeps server_body s = refl
  copying-Keeps (memory text) s = refl

  pub discarded-Keeps : (x : String × Option String) → Keeps (discarded x)
  discarded-Keeps (text, none) s = refl
  discarded-Keeps (text, some e) s = refl

  pub discarding-Keeps : (b : Body) → Keeps (discarding b)
  discarding-Keeps nil_body s = refl
  discarding-Keeps server_body s = read_then-Keeps server_body discarded discarded-Keeps s
  discarding-Keeps (memory text) s = read_then-Keeps (memory text) discarded discarded-Keeps s

  pub closed_by-Keeps :
      (e : Ended) (x : Option String × Held T)
      → (closed_by e x).1.answer.status_code ≡ x.1.answer.status_code
  closed_by-Keeps e (none, s) = refl
  closed_by-Keeps e (some m, s) = refl

  pub close_after-Keeps : (e : Ended) (b : Body) → Keeps (close_after e b)
  close_after-Keeps e nil_body s = refl
  close_after-Keeps e server_body s =
      closed_by-Keeps e (close_body server_body s) ∙ close_body-Keeps server_body s
  close_after-Keeps e (memory text) s =
      closed_by-Keeps e (close_body (memory text) s) ∙ close_body-Keeps (memory text) s

  pub unexpected_read-Keeps : (b : Body) (x : String × Option String) → Keeps (unexpected_read b x)
  unexpected_read-Keeps b x s = close_body-Keeps b s

  pub unexpected-Keeps : (b : Body) → Keeps (unexpected b)
  unexpected-Keeps nil_body s = refl
  unexpected-Keeps server_body s =
      read_then-Keeps server_body (unexpected_read server_body) (unexpected_read-Keeps server_body)
        s
  unexpected-Keeps (memory text) s =
      read_then-Keeps (memory text) (unexpected_read (memory text))
        (unexpected_read-Keeps (memory text)) s

  pub unmarshalled-Keeps :
      (format text : String) (x : Option String × T) → Keeps (unmarshalled format text x)
  unmarshalled-Keeps format text (none, v) s = refl
  unmarshalled-Keeps format text (some e, v) s = refl

  module _ (codec : Codec T) where
    pub take_bytes-Keeps : (x : String × Option String) → Keeps (take_bytes codec x)
    take_bytes-Keeps (text, none) s = refl
    take_bytes-Keeps (text, some e) s = refl

    pub take_json-Keeps : (x : String × Option String) → Keeps (take_json codec x)
    take_json-Keeps (text, none) s =
        if-intro (λ (o : Ended × Held T). o.1.answer.status_code ≡ s.answer.status_code)
          (is_blank (trim_bom text)) (λ _. refl)
          (λ _.
            unmarshalled-Keeps "JSON" (trim_bom text) (codec.unmarshal_json (trim_bom text) s.value)
              s)
    take_json-Keeps (text, some e) s = refl

    pub take_xml-Keeps : (x : String × Option String) → Keeps (take_xml codec x)
    take_xml-Keeps (text, none) s = unmarshalled-Keeps "Xml" text _ s
    take_xml-Keeps (text, some e) s = refl

  module _ (d : Decoders) where
    pub azure_error-Keeps : (b : Body) → Keeps (azure_error d b)
    azure_error-Keeps nil_body s = refl
    azure_error-Keeps server_body s = close_body-Keeps server_body _ ∙ copy_read-Keeps _ s
    azure_error-Keeps (memory text) s = close_body-Keeps (memory text) _ ∙ copy_read-Keeps _ s

  pub then-Keeps :
      (k : Responder T) (o : Ended × Held T)
      → Keeps k
      → (then_if_done o k).1.answer.status_code ≡ o.1.answer.status_code
  then-Keeps k (done, s) h = h s
  then-Keeps k (fails e, s) h = refl
  then-Keeps k (panics, s) h = refl

  pub closing_of-Keeps :
      (o : Ended × Held T) → (closing_of o).1.answer.status_code ≡ o.1.answer.status_code
  closing_of-Keeps (done, s) = close_after-Keeps done s.answer.body s
  closing_of-Keeps (fails e, s) = close_after-Keeps (fails e) s.answer.body s
  closing_of-Keeps (panics, s) = refl

  pub closing_if_error_of-Keeps :
      (o : Ended × Held T) → (closing_if_error_of o).1.answer.status_code ≡ o.1.answer.status_code
  closing_if_error_of-Keeps (done, s) = refl
  closing_if_error_of-Keeps (fails e, s) = close_after-Keeps (fails e) s.answer.body s
  closing_if_error_of-Keeps (panics, s) = refl

  pub tested-Keeps :
      (codes : List ℕ) (k : Held T → Ended × Held T)
      → Keeps k
      → Keeps (λ s. if contains_int codes s.answer.status_code then (done, s) else k s)
  tested-Keeps codes k h s =
      if-intro (λ (o : Ended × Held T). o.1.answer.status_code ≡ s.answer.status_code)
        (contains_int codes s.answer.status_code) (λ _. refl) (λ _. h s)
