-- ===== src/Respond/Closing.antt =====
-- autorest/responder.go: what the decorators leave of the response's body.
use go_autorest.Prelude.{
  ℕ, String, Bool, true, false, Option, none, some, List, [], ◌∷◌, ◌≡◌, ◌≢◌, refl, if-intro,
  if◌then◌else◌, ◌++◌,
}
use go_autorest.Http.{contains_int}
use go_autorest.Adal.Types.{is_blank}
use go_autorest.Platform.{Decoded}
use go_autorest.Respond.Body.{
  Body, nil_body, server_body, memory, with_body, copy_read, Held, done, panics, Responder,
  copy_read, read_then, close_body, trim_bom,
}
use go_autorest.Respond.Decorators.{
  Codec, by_ignoring, copying, by_copying, discarding, by_discarding_body, closing as closing_of,
  by_closing, by_closing_if_error, unmarshalled, take_bytes, by_unmarshalling_bytes, take_json,
  by_unmarshalling_json, take_xml, by_unmarshalling_xml, unexpected, unexpected_read,
  status_failure, read_failed, with_error_unless_status_code,
}
use go_autorest.Respond.Azure.{
  Decoding, Decoders, from_decoding, is_xml, replaced, azure_error, azure_error_unless_status_code,
}
use go_autorest.Respond.Bodies.{
  sent, IsSound, IsGood, of_done, of_fails, IsHeld, copy_read-IsHeld, weaker, read_then-IsGood,
  copying-IsGood, discarding-IsGood, own_body, closing_of-IsGood, closing_if_error_of-IsGood,
  then-IsGood, replaced_by,
}
use go_autorest.Respond.Chain.{
  Decorator, ignoring, copying as copying_of, discarding as discarding_of, closing,
  closing_if_error, bytes, json, xml, unless_status, azure_unless, apply, decorate_responder,
  create_responder,
}

module _ {T : Type 0} where
  unexpected-IsGood :
      (seen : Bool) (b : Body) (s : Held T) → IsHeld seen b s → IsGood seen (unexpected b s)
  unexpected-IsGood seen nil_body s h = elim h.own [ ]
  unexpected-IsGood seen server_body s h =
      read_then-IsGood seen server_body s (unexpected_read server_body) h (λ (text, e) s' g.
        of_fails seen (status_failure s'.answer (some text))
          (with_body (memory text) (close_body server_body s').1)
          (replaced_by seen server_body text s' g))
  unexpected-IsGood seen (memory t) s h =
      read_then-IsGood seen (memory t) s (unexpected_read (memory t)) h (λ (text, e) s' g.
        of_fails seen (status_failure s'.answer (some text))
          (with_body (memory text) (close_body (memory t) s').1)
          (replaced_by seen (memory t) text s' g))

  unmarshalled-IsGood :
      (seen : Bool) (format text : String) (x : Option String × T) (s : Held T)
      → IsSound seen s.answer
      → IsGood seen (unmarshalled format text x s)
  unmarshalled-IsGood seen format text (none, v) s h = of_done seen (record s { value = v }) h
  unmarshalled-IsGood seen format text (some e, v) s h = record {
    returns = λ e'. absurd (cc);
    sound = h;
  }

  module _ (codec : Codec T) where
    take_bytes-IsGood :
        (seen : Bool) (x : String × Option String) (s : Held T)
        → IsSound seen s.answer
        → IsGood seen (take_bytes codec x s)
    take_bytes-IsGood seen (text, none) s h =
        of_done seen (record s { value = codec.of_bytes text s.value }) h
    take_bytes-IsGood seen (text, some e) s h = of_fails seen (read_failed e) s h

    take_json-IsGood :
        (seen : Bool) (x : String × Option String) (s : Held T)
        → IsSound seen s.answer
        → IsGood seen (take_json codec x s)
    take_json-IsGood seen (text, none) s h =
        if-intro (IsGood seen) (is_blank (trim_bom text)) (λ _. of_done seen s h)
          (λ _.
            unmarshalled-IsGood seen "JSON" (trim_bom text)
              (codec.unmarshal_json (trim_bom text) s.value) s h)
    take_json-IsGood seen (text, some e) s h = of_fails seen (read_failed e) s h

    take_xml-IsGood :
        (seen : Bool) (x : String × Option String) (s : Held T)
        → IsSound seen s.answer
        → IsGood seen (take_xml codec x s)
    take_xml-IsGood seen (text, none) s h =
        unmarshalled-IsGood seen "Xml" text (codec.unmarshal_xml text s.value) s h
    take_xml-IsGood seen (text, some e) s h = of_fails seen (read_failed e) s h

  module _ (d : Decoders) where
    replaced-IsGood :
        (seen : Bool) (b : Body) (x : Decoded Decoding × String) (s : Held T)
        → IsHeld seen b s
        → IsGood seen (replaced d b x s)
    replaced-IsGood seen b (x, text) s h =
        of_fails seen (from_decoding d s.answer (is_xml d s.answer) text x)
          (with_body (memory text) (close_body b (copy_read text s)).1)
          (replaced_by seen b text (copy_read text s) (copy_read-IsHeld seen b text s h))

    azure_error-IsGood :
        (seen : Bool) (b : Body) (s : Held T) → IsHeld seen b s → IsGood seen (azure_error d b s)
    azure_error-IsGood seen nil_body s h = elim h.own [ ]
    azure_error-IsGood seen server_body s h = replaced-IsGood seen server_body _ s h
    azure_error-IsGood seen (memory text) s h = replaced-IsGood seen (memory text) _ s h

  fresh : (s : Held T) → s.answer.body ≡ server_body → IsSound false s.answer
  fresh s e = record { kept = rw e sent; closed = λ f. absurd (cc) }

  abbrev status_tested : List ℕ → Responder T → Responder T
  status_tested codes k s = if contains_int codes s.answer.status_code then (done, s) else k s

  module _ (codec : Codec T) (d : Decoders) where
    -- every decorator keeps what is known, if the responder that it decorates ends well
    apply-IsGood :
        (seen : Bool) (x : Decorator) (r : Responder T) (s : Held T)
        → IsGood seen (r s)
        → IsGood seen (apply codec d x r s)
    unfolding apply by_ignoring by_copying by_discarding_body by_closing by_closing_if_error
        by_unmarshalling_bytes by_unmarshalling_json by_unmarshalling_xml
        with_error_unless_status_code azure_error_unless_status_code
    apply-IsGood seen ignoring r s h = h
    apply-IsGood seen copying_of r s h =
        then-IsGood seen (r s) (λ s'. copying s'.answer.body s') h
          (λ s' g. copying-IsGood seen s'.answer.body s' g)
    apply-IsGood seen discarding_of r s h =
        then-IsGood seen (r s) (λ s'. discarding s'.answer.body s') h
          (λ s' g. discarding-IsGood seen s'.answer.body s' (own_body seen s' g))
    apply-IsGood seen closing r s h =
        let g = closing_of-IsGood seen (r s) h in
        record { returns = g.returns; sound = weaker seen (closing_of (r s)).1.answer g.sound }
    apply-IsGood seen closing_if_error r s h = closing_if_error_of-IsGood seen (r s) h
    apply-IsGood seen bytes r s h =
        then-IsGood seen (r s) (λ s'. read_then s'.answer.body s' (take_bytes codec)) h
          (λ s' g.
            read_then-IsGood seen s'.answer.body s' (take_bytes codec) (own_body seen s' g)
              (λ x s'' g'. take_bytes-IsGood codec seen x s'' g'.sound))
    apply-IsGood seen json r s h =
        then-IsGood seen (r s) (λ s'. read_then s'.answer.body s' (take_json codec)) h
          (λ s' g.
            read_then-IsGood seen s'.answer.body s' (take_json codec) (own_body seen s' g)
              (λ x s'' g'. take_json-IsGood codec seen x s'' g'.sound))
    apply-IsGood seen xml r s h =
        then-IsGood seen (r s) (λ s'. read_then s'.answer.body s' (take_xml codec)) h
          (λ s' g.
            read_then-IsGood seen s'.answer.body s' (take_xml codec) (own_body seen s' g)
              (λ x s'' g'. take_xml-IsGood codec seen x s'' g'.sound))
    apply-IsGood seen (unless_status codes) r s h =
        then-IsGood seen (r s) (status_tested codes (λ s'. unexpected s'.answer.body s')) h (λ s' g.
          if-intro (IsGood seen) (contains_int codes s'.answer.status_code) (λ _. of_done seen s' g)
            (λ _. unexpected-IsGood seen s'.answer.body s' (own_body seen s' g)))
    apply-IsGood seen (azure_unless codes) r s h =
        then-IsGood seen (r s) (status_tested codes (λ s'. azure_error d s'.answer.body s')) h
          (λ s' g.
            if-intro (IsGood seen) (contains_int codes s'.answer.status_code)
              (λ _. of_done seen s' g)
              (λ _. azure_error-IsGood d seen s'.answer.body s' (own_body seen s' g)))

    decorate-IsGood :
        (seen : Bool) (xs : List Decorator) (r : Responder T) (s : Held T)
        → IsGood seen (r s)
        → IsGood seen (decorate_responder codec d xs r s)
    unfolding decorate_responder
    decorate-IsGood seen [] r s h = h
    decorate-IsGood seen (x ∷ xs) r s h =
        decorate-IsGood seen xs (apply codec d x r) s (apply-IsGood seen x r s h)

    closing-IsGood :
        (xs ys : List Decorator) (r : Responder T) (s : Held T)
        → IsGood false (r s)
        → IsGood true (decorate_responder codec d (xs ++ closing ∷ ys) r s)
    unfolding decorate_responder apply by_closing
    closing-IsGood [] ys r s h =
        decorate-IsGood true ys (apply codec d closing r) s (closing_of-IsGood false (r s) h)
    closing-IsGood (x ∷ xs) ys r s h =
        closing-IsGood xs ys (apply codec d x r) s (apply-IsGood false x r s h)

    -- A responder whose decorators hold `ByClosing` somewhere in the list responds to a response
    -- with the server's body: it does not panic, and the server's body is closed afterwards,
    -- whether a decorator read the body, replaced it by a copy of its text, or failed.
    pub respond-closes :
        (xs ys : List Decorator) (s : Held T)
        → s.answer.body ≡ server_body
        → ((create_responder codec d (xs ++ closing ∷ ys) s).0 ≢ panics)
          × ((create_responder codec d (xs ++ closing ∷ ys) s).1.answer.server.closed ≡ true)
    unfolding create_responder
    respond-closes xs ys s e =
        let g = closing-IsGood xs ys (λ s'. (done, s')) s (of_done false s (fresh s e)) in
        (g.returns, g.sound.closed refl)
