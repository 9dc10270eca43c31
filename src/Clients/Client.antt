-- ===== src/Clients/Client.antt =====
-- autorest/client.go: `Client.Do` and `Client.Send`.
use Prim.Native.String.{◌++◌}
use go_autorest.Prelude.{
  ℕ, String, Bool, false, Option, none, some, List, [], ◌∷◌, ◌==◌, if◌then◌else◌, is_empty,
}
use go_autorest.Http.{Response, response_has_status_code}
use go_autorest.Errors.{
  Error, external, token_refresh, service, detailed, original, Reply, new_error_with_error,
}
use go_autorest.Result.{Result, ok, err, panic}
use go_autorest.Sender.{reply, decorate_sender}
use go_autorest.Senders.{Sent, replied, sent_panic, out_of_fuel}
use go_autorest.Preparers.{PrepareDecorator, prepare}
use go_autorest.Preparers.Outgoing.{Outgoing, with_nothing, with_user_agent}

-- `Response.IsHTTPStatus` and `Response.HasHTTPStatus`, of a response that may be nil
unfoldable pub is_http_status : Option Response → ℕ → Bool
is_http_status none code = false
is_http_status (some resp) code = resp.status_code == code

unfoldable pub has_http_status : Option Response → List ℕ → Bool
unfolding response_has_status_code
has_http_status resp codes = response_has_status_code resp codes

-- a sender of requests, in a world
abbrev pub Sending : Type 0 → Type 0
Sending W = Outgoing → W → Sent × W

abbrev pub SendDecorator : Type 0 → Type 0
SendDecorator W = Sending W → Sending W

-- The fields of a client that `Do` and `Send` read; the response's inspector may replace it.
pub record Client (W : Type 0) : Type 0 where
  pub authorizer : Option (PrepareDecorator Outgoing)
  pub sender : Option (Sending W)
  pub request_inspector : Option (PrepareDecorator Outgoing)
  pub response_inspector : Option (Response → Response)
  pub user_agent : String
  pub send_decorators : Option (List (SendDecorator W))

-- `AddToUserAgent`: the user agent, and an error's text
unfoldable pub add_to_user_agent : String → String → String × Option String
add_to_user_agent agent extension =
    if is_empty extension
    then (agent, some ("Extension was empty, User Agent stayed as " ++ agent))
    else (agent ++ (" " ++ extension), none)

-- `newClient`: the user agent of a client with the default one and an extension
unfoldable pub new_user_agent : String → String → String
unfolding add_to_user_agent
new_user_agent default ua = (add_to_user_agent default ua).0

-- `Header.Get`
abbrev pub first_value : List String → String
first_value [] = ""
first_value (v ∷ vs) = v

abbrev pub or_nothing : Option (PrepareDecorator Outgoing) → PrepareDecorator Outgoing
or_nothing none = with_nothing
or_nothing (some d) = d

abbrev pub inspected : Option (Response → Response) → Option Response → Option Response
inspected (some f) (some resp) = some (f resp)
inspected i resp = resp

-- the response of a detailed error
abbrev pub response_of : Error → Option Response
response_of (detailed o p m s t a resp) = resp
response_of (external m) = none
response_of (token_refresh m) = none
response_of (service e) = none

-- a sender that returns neither a response nor an error gets an error
abbrev pub with_answer : Option Response → Option Error → Reply
with_answer none none = reply none (some (external "autorest: received nil response and error"))
with_answer a e = reply a e

abbrev pub some_reply : Reply → Reply
some_reply r = with_answer r.answer r.failure

-- http.CanonicalHeaderKey, and the default sender
module _ {W : Type 0} (canonical : String → String) (default_sender : Sending W) where
  abbrev pub sender_of : Option (Sending W) → Sending W
  sender_of none = default_sender
  sender_of (some s) = s

  -- `if r.UserAgent() == ""`
  abbrev pub with_agent : String → Outgoing → Result Outgoing
  with_agent agent r =
      if is_empty (first_value (r.headers "User-Agent"))
      then prepare (some r) (with_user_agent canonical agent ∷ [])
      else ok r

  abbrev pub authorized : Client W → Result Outgoing → Result Outgoing
  authorized c (ok r) =
      prepare (some r) (or_nothing c.authorizer ∷ or_nothing c.request_inspector ∷ [])
  authorized c (err e) = err e
  authorized c panic = panic

  abbrev pub after_sender : Client W → Sent × W → Sent × W
  after_sender c (replied r, w) =
      let r' = some_reply r in
      (replied (reply (inspected c.response_inspector r'.answer) r'.failure), w)
  after_sender c (sent_panic, w) = (sent_panic, w)
  after_sender c (out_of_fuel, w) = (out_of_fuel, w)

  abbrev pub sent_by : Client W → Result Outgoing → W → Sent × W
  sent_by c (ok r) w = after_sender c (sender_of c.sender r w)
  sent_by c (err e) w = (
    replied (
        reply (response_of e) (
          some (
            new_error_with_error (original e) "autorest/Client" "Do" none "Preparing request failed"
              []))),
    w,
  )
  sent_by c panic w = (sent_panic, w)

  -- `Client.Do`
  unfoldable pub do_client : Client W → Sending W
  do_client c r w = sent_by c (authorized c (with_agent c.user_agent r)) w

  -- the decorators of the request's context, else those of the client, else the given ones
  abbrev pub chosen :
      Option (List (SendDecorator W))
      → Option (List (SendDecorator W))
      → List (SendDecorator W)
      → List (SendDecorator W)
  chosen (some ds) c given = ds
  chosen none (some ds) given = ds
  chosen none none given = given

  -- `Client.Send`
  unfoldable pub send_client :
      Client W → Option (List (SendDecorator W)) → List (SendDecorator W) → Sending W
  unfolding do_client
  send_client c in_context given =
      decorate_sender (do_client c) (chosen in_context c.send_decorators given)
