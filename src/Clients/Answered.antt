-- ===== src/Clients/Answered.antt =====
-- autorest/client.go: what `Client.Do` returns.
use go_autorest.Prelude.{◌≡◌, ◌≢◌, ◌⊎◌, Option, none, some}
use go_autorest.Http.{Response}
use go_autorest.Errors.{Error}
use go_autorest.Result.{Result, ok, err, panic}
use go_autorest.Senders.{Sent, replied, sent_panic, out_of_fuel}
use go_autorest.Preparers.Outgoing.{Outgoing}
use go_autorest.Clients.Client.{Client, Sending, response_of}

-- an error that the sender returns is not lost
abbrev IsKept : Option Error → Option Error → Type 0
IsKept none e = Unit {0}
IsKept (some x) e = e ≡ some x

-- How `Do` ends in the world `w`, where `prepared` is the request with the user agent, after the
-- authorizer and the request's inspector. Where that is an error, `Do` returns an error with its
-- response, and the world is as it was. A request is given to the sender once; what the sender
-- replies becomes a response or an error, and its world is the world that `Do` leaves.
pub data IsAnswered {W : Type 0} (send : Sending W) (prepared : Result Outgoing) (w : W)
    : Sent × W → Type 0 where
  unsent :
      (e e' : Error)
      → prepared ≡ err e
      → IsAnswered send prepared w
          (replied (record { answer = response_of e; failure = some e' }), w)
  unprepared : prepared ≡ panic → IsAnswered send prepared w (sent_panic, w)
  answered :
      (r : Outgoing) (a a' : Option Response) (e e' : Option Error) (w' : W)
      → prepared ≡ ok r
      → send r w ≡ (replied (record { answer = a; failure = e }), w')
      → (a' ≢ none) ⊎ (e' ≢ none)
      → IsKept e e'
      → IsAnswered send prepared w (replied (record { answer = a'; failure = e' }), w')
  panics :
      (r : Outgoing) (w' : W)
      → prepared ≡ ok r
      → send r w ≡ (sent_panic, w')
      → IsAnswered send prepared w (sent_panic, w')
  no_fuel :
      (r : Outgoing) (w' : W)
      → prepared ≡ ok r
      → send r w ≡ (out_of_fuel, w')
      → IsAnswered send prepared w (out_of_fuel, w')
