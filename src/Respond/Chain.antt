-- ===== src/Respond/Chain.antt =====
-- autorest/responder.go: responders by their list of decorators.
use go_autorest.Prelude.{ℕ, List, [], ◌∷◌}
use go_autorest.Respond.Body.{done, Responder, RespondDecorator}
use go_autorest.Respond.Decorators.{
  Codec, by_ignoring, by_copying, by_discarding_body, by_closing, by_closing_if_error,
  by_unmarshalling_bytes, by_unmarshalling_json, by_unmarshalling_xml,
  with_error_unless_status_code,
}
use go_autorest.Respond.Azure.{Decoders, azure_error_unless_status_code}

-- the decorators of the library
pub data Decorator : Type 0 where
  ignoring copying discarding closing closing_if_error bytes json xml : Decorator
  unless_status azure_unless : (codes : List ℕ) → Decorator

module _ {T : Type 0} (codec : Codec T) (d : Decoders) where
  unfoldable pub apply : Decorator → RespondDecorator T
  apply ignoring = by_ignoring
  apply copying = by_copying
  apply discarding = by_discarding_body
  apply closing = by_closing
  apply closing_if_error = by_closing_if_error
  apply bytes = by_unmarshalling_bytes codec
  apply json = by_unmarshalling_json codec
  apply xml = by_unmarshalling_xml codec
  apply (unless_status codes) = with_error_unless_status_code codes
  apply (azure_unless codes) = azure_error_unless_status_code d codes

  -- the first decorator is innermost
  unfoldable pub decorate_responder : List Decorator → Responder T → Responder T
  decorate_responder [] r = r
  decorate_responder (x ∷ xs) r = decorate_responder xs (apply x r)

  unfoldable pub create_responder : List Decorator → Responder T
  create_responder xs = decorate_responder xs (λ s. (done, s))
