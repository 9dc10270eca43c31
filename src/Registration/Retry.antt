-- ===== src/Registration/Retry.antt =====
-- autorest/azure/rp.go: `DoRetryWithRegistration`.
use go_autorest.Prelude.{
  ℕ, zero, suc, String, Bool, not, ◌||◌, Option, none, some, [], ◌∷◌, ◌==◌, if◌then◌else◌, str_eq,
}
use go_autorest.Json.{null}
use go_autorest.Errors.{ServiceError}
use go_autorest.Retriable.{Bytes, RetriableRequest, prepare, readable_body, consume}
use go_autorest.Sender.{Sending}
use go_autorest.Respond.Body.{Answer, Held, Ended, done, fails, panics}
use go_autorest.Respond.Decorators.{Codec}
use go_autorest.Respond.Azure.{Decoding, Decoders}
use go_autorest.Respond.Chain.{json, xml, create_responder}
use go_autorest.Registration.Requests.{UrlLibrary}
use go_autorest.Registration.Register.{
  Problem, refusal, message, failure, conflict, not_registered, Outcome, answered, refused, Client,
  Services, State, no_error, fails_with, panicked, out_of_fuel, Step, register,
}

-- What the code reads of the original request: whether its Content-Type contains "xml", the scheme
-- and host of its URL, and its path.
pub record Original : Type 0 where
  pub is_xml : Bool
  pub base : String
  pub path : String

-- How the sender ends: with a response or without, and an error or none.
pub data Reply : Type 0 where
  returned : Option Answer → Option Problem → Reply
  retry_panics : Reply
  no_fuel : Reply

abbrev pub code_of : Option ServiceError → String
code_of none = ""
code_of (some se) = se.code

-- The codecs of the provider and of the error, and the sender under the decorator, which retries for
-- status codes: it is given a body, and says how much of it is left.
pub record Codecs : Type 0 where
  pub state : Codec State
  pub errors : Codec Decoding
  pub decoders : Decoders

module _ {W : Type 0} (lib : UrlLibrary) (codecs : Codecs) (services : Services W) (client : Client)
    (send : W → Bytes → Outcome × Bytes × W) (fuel : ℕ) (r : Original) where
  -- the rest of the loop, after a conflict
  abbrev pub Again : Type 0
  Again = Option Answer → Option Problem → Sending W → Reply × Sending W

  abbrev pub after_register :
      Option Answer
      → Decoding
      → Sending W
      → Step lib codecs.state codecs.decoders services client
      → Again
      → Reply × Sending W
  after_register a re s (no_error, state, w) k = k a (some (conflict re)) (record s { world = w })
  after_register a re s (fails_with e, state, w) k =
      (returned a (some (not_registered e re)), record s { world = w })
  after_register a re s (panicked, state, w) k = (retry_panics, record s { world = w })
  after_register a re s (out_of_fuel, state, w) k = (no_fuel, record s { world = w })

  unfoldable pub after_decoding : Ended × Held Decoding → Sending W → Again → Reply × Sending W
  after_decoding (fails e, h) s k = (returned (some h.answer) (some (failure e)), s)
  after_decoding (panics, h) s k = (retry_panics, s)
  after_decoding (done, h) s k =
      if str_eq (code_of h.value.service_error) "MissingSubscriptionRegistration"
      then after_register (some h.answer) h.value s
          (register lib codecs.state codecs.decoders services client fuel r.base r.path h.value
            s.world)
          k
      else k (some h.answer) (some (conflict h.value)) s

  -- the `RequestError` that the response is decoded into, by the type of the request's content
  abbrev pub decode : Answer → Ended × Held Decoding
  decode a =
      create_responder codecs.errors codecs.decoders ((if r.is_xml then xml else json) ∷ [])
        (record {
          answer = a;
          value = record { service_error = none; status_code = null };
          copied = "";
        })

  unfoldable pub after_send : Outcome → Sending W → Again → Reply × Sending W
  unfolding after_decoding
  after_send (refused a e) s k = (returned a (some (refusal e)), s)
  after_send (answered a) s k =
      if not (a.status_code == 409) || client.skip_registration
      then (returned (some a) none, s)
      else after_decoding (decode a) s k

  unfoldable pub send_prepared :
      Option String × RetriableRequest → Option Answer → Sending W → Again → Reply × Sending W
  unfolding after_send
  send_prepared (some e, rr) last s k =
      (returned last (some (message e)), record s { request = rr })
  send_prepared (none, rr) last s k =
      let (o, left, w) = send s.world (readable_body rr) in
      after_send o
        (record { request = consume left rr; world = w; sent = readable_body rr ∷ s.sent }) k

  -- the loop, by the attempts that are left
  unfoldable pub attempts : ℕ → Again
  unfolding send_prepared
  attempts zero a e s = (returned a e, s)
  attempts (suc n) a e s = send_prepared (prepare s.request) a s (attempts n)

  -- `DoRetryWithRegistration`, on a request that was not sent yet
  unfoldable pub do_retry_with_registration : Sending W → Reply × Sending W
  unfolding attempts
  do_retry_with_registration s = attempts client.retry_attempts none none s
