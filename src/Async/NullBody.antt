-- ===== src/Async/NullBody.antt =====
-- A defect of `updateErrorFromResponse`: a failed poll whose body is the literal null.
use go_autorest.Prelude.{String, ◌≡◌, refl, true, false, none, some, List, is_zero, is_empty}
use go_autorest.Http.{readable, Response, Request, response_has_status_code}
use go_autorest.Errors.{Reply}
use go_autorest.Platform.{Platform, decoded}
use go_autorest.Preparers.{PrepareDecorator}
use go_autorest.Result.{ok, panic}
use go_autorest.Async.Tracker.{Base, polling_codes, has_terminated}
use go_autorest.Async.Body.{update_error_from_response}
use go_autorest.Async.State.{accept_reply, receive, fail_with_response}
use go_autorest.Async.Create.{Tracker}
use go_autorest.Async.Future.{after_send, prepare_poll, poll, done_tracker, done_with_context}

-- Standard library: of the literal null, decoding a struct or a pointer succeeds and sets nothing.
pub record ReadsNull (p : Platform) (text : String) : Type 0 where
  pub null_literal : p.is_null_text text ≡ true
  pub no_member : p.unmarshal_error_member text ≡ decoded none

module _ (p : Platform) (text : String) (reads : ReadsNull p text)
    (filled : is_empty text ≡ false) where
  update_error_null :
      (s : Base) (resp : Response)
      → s.resp ≡ some resp
      → resp.body ≡ some (readable text)
      → is_zero resp.content_length ≡ false
      → (update_error_from_response p s).0 ≡ panic
  unfolding update_error_from_response
  update_error_null s resp same body length =
      rw same (rw length (rw body (rw filled (rw reads.no_member (rw reads.null_literal refl)))))

  accept_null :
      (s : Base) (resp : Response) (reply : Reply)
      → reply.failure ≡ none
      → reply.answer ≡ some resp
      → response_has_status_code reply.answer polling_codes ≡ false
      → resp.body ≡ some (readable text)
      → is_zero resp.content_length ≡ false
      → (accept_reply p reply s).0 ≡ panic
  unfolding accept_reply receive fail_with_response
  accept_null s resp reply fine same code body length = rw fine (
      rw code
        (rw (update_error_null (record s { resp = reply.answer }) resp same body length) refl))

  after_send_null :
      (t : Tracker) (resp : Response) (reply : Reply)
      → reply.failure ≡ none
      → reply.answer ≡ some resp
      → response_has_status_code reply.answer polling_codes ≡ false
      → resp.body ≡ some (readable text)
      → is_zero resp.content_length ≡ false
      → (after_send p t.verb reply t.base).0 ≡ panic
  unfolding after_send
  after_send_null t resp reply fine same code body length =
      rw (accept_null t.base resp reply fine same code body length) refl

  -- An operation that has not terminated is polled, and the sender answers, without an error, with
  -- a status other than 200, 201, 202 and 204 and with a body that is the JSON literal null. Then
  -- `DoneWithContext` panics.
  pub done-panics_on_null :
      {W : Type 0} (send : W → Request → Reply × W) (ds : List (PrepareDecorator Request))
      (t : Tracker) (w : W) (req : Request) (resp : Response)
      → has_terminated p t.base.state ≡ false
      → prepare_poll p ds t.base.uri ≡ ok req
      → (send w req).0.failure ≡ none
      → (send w req).0.answer ≡ some resp
      → response_has_status_code (some resp) polling_codes ≡ false
      → resp.body ≡ some (readable text)
      → is_zero resp.content_length ≡ false
      → (done_with_context p send ds (record { tracker = some t; world = w })).0 ≡ panic
  unfolding done_with_context done_tracker poll
  done-panics_on_null send ds t w req resp running ready fine same code body length =
      rw running
        (rw ready (after_send_null t resp (send w req).0 fine same (rw same code) body length))
