-- ===== src/Respond/Kept.antt =====
-- autorest/responder.go: what `WithErrorUnlessStatusCode` leaves of a body that it has read.
use go_autorest.Prelude.{
  ℕ, String, true, false, Option, some, List, ◌≡◌, refl, sym, subst, if-intro,
}
use go_autorest.Http.{contains_int}
use go_autorest.Respond.Body.{
  server_body, Held, done, fails, unexpected_status, Ended, read_then, read_server, close_body,
}
use go_autorest.Respond.Decorators.{
  Codec, by_unmarshalling_bytes, with_error_unless_status_code, unexpected, unexpected_read,
}

module _ {T : Type 0} (codec : Codec T) where
  -- what a second reader of the response's body makes of it
  abbrev pub second : Ended × Held T → Ended × Held T
  second o = by_unmarshalling_bytes codec (λ s. (done, s)) o.1

  abbrev pub IsPresented : Held T → Ended × Held T → Type 0
  IsPresented s o =
      (o.0
        ≡ fails (
            unexpected_status s.answer.request_method s.answer.request_url s.answer.status
              s.answer.status_code (some s.answer.server.left)))
      × (o.1.answer.server.closed ≡ true)
      × ((second o).0 ≡ done)
      × ((second o).1.value ≡ codec.of_bytes s.answer.server.left s.value)

  presented :
      (s : Held T) → s.answer.server.closed ≡ false → IsPresented s (unexpected server_body s)
  unfolding read_then read_server close_body by_unmarshalling_bytes
  presented s c =
      if-intro
        (λ (x : (String × Option String) × Held T).
          IsPresented s (unexpected_read server_body x.0 x.1))
        s.answer.server.closed (λ o. absurd (cc))
        (λ _.
          if-intro
            (λ (s' : Held T).
              IsPresented s
                (unexpected_read server_body (s.answer.server.left, s.answer.server.fails) s'))
            s.answer.tees (λ _. (refl, refl, refl, refl)) (λ _. (refl, refl, refl, refl)))

  -- On a response with the server's body, not yet closed, and a status that is not among the codes,
  -- `WithErrorUnlessStatusCode` fails with the request, the status and all the text that could be
  -- read as the service error. It closes the server's body, and the response has that text as its
  -- body again: `ByUnmarshallingBytes` then reads the same text without an error.
  pub unless_status-presents :
      (codes : List ℕ) (s : Held T)
      → s.answer.body ≡ server_body
      → s.answer.server.closed ≡ false
      → contains_int codes s.answer.status_code ≡ false
      → IsPresented s (with_error_unless_status_code codes (λ s'. (done, s')) s)
  unfolding with_error_unless_status_code
  unless_status-presents codes s b c e =
      if-intro (IsPresented s) (contains_int codes s.answer.status_code) (λ h. absurd (cc))
        (λ _. subst (λ x. IsPresented s (unexpected x s)) (sym b) (presented s c))
