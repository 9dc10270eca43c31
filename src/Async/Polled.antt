-- ===== src/Async/Polled.antt =====
-- Every poll of a DELETE or a POST goes to a URL that a header gave.
use go_autorest.Prelude.{◌≡◌, refl, inl, inr, false, some, List, arith, Bool-cases}
use go_autorest.Http.{Request}
use go_autorest.Errors.{Reply, Error}
use go_autorest.Platform.{Platform}
use go_autorest.Preparers.{PrepareDecorator}
use go_autorest.Result.{Exec, Result, ok, err, panic, handle, pure, on_error}
use go_autorest.Async.Tracker.{Base, Verb}
use go_autorest.Async.Headers.{init_polling_method}
use go_autorest.Async.State.{accept_reply}
use go_autorest.Async.Verbs.{update_polling_method, check_for_errors}
use go_autorest.Async.Create.{Tracker}
use go_autorest.Async.Future.{
  Answer, answer, Session, terminated, conclude, update_and_conclude, poll_state, after_checks,
  after_poll, after_send, prepare_poll, poll, done_tracker, done_with_context,
}
use go_autorest.Async.Frames.{accept_reply-SameUrls, check_for_errors-same, poll_state-SameUrls}
use go_autorest.Async.Urls.{Urls, FromHeaders, init_polling_method-Urls, update_polling_method-Urls}

module _ (p : Platform) where
  handle-Urls :
      (r : Result (Unit {0})) (h : Error → Exec Base Answer) (k : Exec Base Answer) (s : Base)
      → ((e : Error) → Urls p (h e s).1)
      → Urls p s
      → Urls p (k s).1
      → Urls p (handle r h (λ _. k) s).1
  handle-Urls (ok _) h k s f u v = v
  handle-Urls (err e) h k s f u v = f e
  handle-Urls panic h k s f u v = u

  module _ (v : Verb) (f : FromHeaders p v) where
    update_and_conclude-Urls : (s : Base) → Urls p s → Urls p (update_and_conclude p v s).1
    unfolding update_and_conclude
    update_and_conclude-Urls s h =
        let u = update_polling_method-Urls p v s f h in
        handle-Urls (update_polling_method p v s).0 (λ e. pure (answer false (some e))) (conclude p)
          (update_polling_method p v s).1 (λ e. u) u u

    after_checks-Urls : (s : Base) → Urls p s → Urls p (after_checks p v s).1
    unfolding after_checks
    after_checks-Urls s h =
        let t = (poll_state p v s).1 in
        let kept : Urls p t = ground (arith, poll_state-SameUrls p v s) in
        let u = init_polling_method-Urls p t kept in
        handle-Urls (poll_state p v s).0 (λ e. pure (answer false (some e)))
          (on_error (init_polling_method p) (λ e. pure (answer false (some e)))
            (λ _. update_and_conclude p v))
          t (λ e. kept) kept
          (handle-Urls (init_polling_method p t).0 (λ e. pure (answer false (some e)))
            (update_and_conclude p v) (init_polling_method p t).1 (λ e. u) u
            (update_and_conclude-Urls (init_polling_method p t).1 u))

    after_poll-Urls : (s : Base) → Urls p s → Urls p (after_poll p v s).1
    unfolding after_poll
    after_poll-Urls s h =
        let t = (check_for_errors p v s).1 in
        let kept : Urls p t = rw (check_for_errors-same p v s) h in
        handle-Urls (check_for_errors p v s).0 (λ e u. (ok (answer (terminated p u) (some e)), u))
          (after_checks p v) t (λ e. kept) kept (after_checks-Urls t kept)

    after_send-Urls : (reply : Reply) (s : Base) → Urls p s → Urls p (after_send p v reply s).1
    unfolding after_send
    after_send-Urls reply s h =
        let t = (accept_reply p reply s).1 in
        let kept : Urls p t = ground (arith, accept_reply-SameUrls p reply s) in
        handle-Urls (accept_reply p reply s).0 (λ e. pure (answer false (some e))) (after_poll p v)
          t (λ e. kept) kept (after_poll-Urls t kept)

  -- the tracker of a session, with its verb and URLs that can be polled
  abbrev pub SessionUrls : {W : Type 0} → Verb → Session W → Type 0
  SessionUrls v s = (t : Tracker) × (s.tracker ≡ some t) × (t.verb ≡ v) × Urls p t.base

  module _ {W : Type 0} (send : W → Request → Reply × W)
      (ds : List (PrepareDecorator Request)) where
    poll-Urls :
        (t : Tracker) (w : W) (r : Result Request)
        → FromHeaders p t.verb
        → Urls p t.base
        → SessionUrls t.verb (poll p send ds t w r).1
    unfolding poll
    poll-Urls t w (err e) f h = (t, refl, refl, h)
    poll-Urls t w panic f h = (t, refl, refl, h)
    poll-Urls t w (ok req) f h =
        let (reply, w') = send w req in
        (
          record t { base = (after_send p t.verb reply t.base).1 },
          refl,
          refl,
          after_send-Urls t.verb f reply t.base h,
        )

    -- Let the tracker of a DELETE or a POST hold no URL but well-formed, absolute ones, for polling
    -- and for the final GET. After `DoneWithContext`, whatever the sender answered, it is a tracker
    -- of the same verb of which that holds.
    pub done-Urls :
        (t : Tracker) (w : W)
        → FromHeaders p t.verb
        → Urls p t.base
        → SessionUrls t.verb
            (done_with_context p send ds (record { tracker = some t; world = w })).1
    unfolding done_with_context done_tracker
    done-Urls t w f h = elim (Bool-cases (terminated p t.base)) [
      | inl e ↦ rw e (t, refl, refl, h)
      | inr e ↦ rw e (poll-Urls t w (prepare_poll p ds t.base.uri) f h)
    ]
