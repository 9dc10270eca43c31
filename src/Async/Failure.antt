-- ===== src/Async/Failure.antt =====
-- A poll that finds the operation failed or canceled reports an error.
use go_autorest.Prelude.{
  String, ◌≡◌, refl, ◌≢◌, inl, inr, Bool, true, false, none, some, arith, Option-cases,
}
use go_autorest.Errors.{Reply, Error}
use go_autorest.Platform.{Platform}
use go_autorest.Result.{Exec, handle, pure, on_error, Result, ok, err, panic}
use go_autorest.Async.Tracker.{Base, Verb, has_failed, has_terminated, polling_error}
use go_autorest.Async.State.{choose_state, note_failure, update_polling_state, accept_reply}
use go_autorest.Async.Headers.{init_polling_method}
use go_autorest.Async.Verbs.{update_polling_method, check_for_errors, provisioning_state_applicable}
use go_autorest.Async.Future.{
  Answer, answer, terminated, conclude, update_and_conclude, poll_state, after_checks, after_poll,
  after_send,
}
use go_autorest.Async.Frames.{
  init_polling_method-SameStatus, update_polling_method-SameStatus, accept_reply-state,
  check_for_errors-same, update_error_from_response_sets, update_error_from_response-state,
  SameStatus,
}

module _ (p : Platform) where
  -- a failed or canceled operation has an error to report
  abbrev pub FailedHasError : Base → Type 0
  FailedHasError s = has_failed p s.state ≡ true → s.error ≢ none

  pub has_terminated_of_has_failed :
      (state : String) → has_failed p state ≡ true → has_terminated p state ≡ true
  unfolding has_failed has_terminated
  has_terminated_of_has_failed state h = ground arith

  note_failure-FailedHasError :
      (s : Base) → (note_failure p s).0 ≡ ok tt → FailedHasError (note_failure p s).1
  unfolding note_failure
  note_failure-FailedHasError s h f =
      ground (arith, update_error_from_response_sets p s, update_error_from_response-state p s)

  update_polling_state-FailedHasError :
      (a : Bool) (s : Base)
      → (update_polling_state p a s).0 ≡ ok tt
      → FailedHasError (update_polling_state p a s).1
  unfolding update_polling_state
  update_polling_state-FailedHasError a s h f =
      ground (arith, note_failure-FailedHasError (choose_state a s).1)

  update_polling_state_err :
      (a : Bool) (s : Base) (e : Error)
      → (update_polling_state p a s).0 ≡ err e
      → (update_polling_state p a s).1 ≡ s
  unfolding update_polling_state choose_state note_failure
  update_polling_state_err a s e h =
      ground (arith, update_error_from_response_sets p (choose_state a s).1)

  -- What a poll's answer says of the tracker that it leaves.
  pub record Reported (a : Answer) (s : Base) : Type 0 where
    pub has_error : FailedHasError s
    pub done_if_terminated : a.failure ≡ none → a.done ≡ has_terminated p s.state
    pub no_error : a.failure ≡ none → s.error ≡ none

  -- `r` panicked, or is an answer with its report
  abbrev pub Reports : Result Answer × Base → Type 0
  Reports (ok a, s) = Reported a s
  Reports (err e, s) = ⊥
  Reports (panic, s) = Unit

  pub FailedHasError-of_SameStatus :
      {s t : Base} → SameStatus s t → FailedHasError s → FailedHasError t
  FailedHasError-of_SameStatus same h f = ground (arith, h (ground arith))

  pub Reports-conclude : (s : Base) → FailedHasError s → Reports (conclude p s)
  unfolding polling_error
  Reports-conclude s h = record {
    has_error = h;
    done_if_terminated = λ _. refl;
    no_error = λ e. ground arith;
  }

  pub Reports-fail : (e : Error) (s : Base) → FailedHasError s → Reported (answer false (some e)) s
  Reports-fail e s h = record { has_error = h; done_if_terminated = λ x. cc; no_error = λ x. cc }

  Reports-handle :
      (r : Result (Unit {0})) (s : Base) (k : Exec Base Answer)
      → (r ≢ panic → FailedHasError s)
      → (r ≡ ok tt → Reports (k s))
      → Reports (handle r (λ e. pure (answer false (some e))) (λ _. k) s)
  Reports-handle (ok _) s k h f = f refl
  Reports-handle (err e) s k h f = Reports-fail e s (h (λ x. cc))
  Reports-handle panic s k h f = tt

  Reports-on_error :
      (m : Exec Base (Unit {0})) (k : Exec Base Answer) (s : Base)
      → ((m s).0 ≢ panic → FailedHasError (m s).1)
      → ((m s).0 ≡ ok tt → Reports (k (m s).1))
      → Reports (on_error m (λ e. pure (answer false (some e))) (λ _. k) s)
  Reports-on_error m k s h f = Reports-handle (m s).0 (m s).1 k h f

  Reports-update_and_conclude :
      (v : Verb) (s : Base) → FailedHasError s → Reports (update_and_conclude p v s)
  unfolding update_and_conclude
  Reports-update_and_conclude v s h =
      let keep = FailedHasError-of_SameStatus (update_polling_method-SameStatus p v s) h in
      Reports-on_error (update_polling_method p v) (conclude p) s (λ _. keep)
        (λ _. Reports-conclude (update_polling_method p v s).1 keep)

  update_polling_state_kept :
      (a : Bool) (s : Base)
      → FailedHasError s
      → (update_polling_state p a s).0 ≢ panic
      → FailedHasError (update_polling_state p a s).1
  update_polling_state_kept a s h ne = kept (update_polling_state p a s).0 refl
    where
      kept :
          (r : Result (Unit {0}))
          → (update_polling_state p a s).0 ≡ r
          → FailedHasError (update_polling_state p a s).1
      kept (ok _) e = update_polling_state-FailedHasError a s e
      kept (err x) e = rw (update_polling_state_err a s x e) h
      kept panic e = absurd (ne e)

  polling_state_kept :
      (v : Verb) (s : Base)
      → FailedHasError s
      → (poll_state p v s).0 ≢ panic
      → FailedHasError (poll_state p v s).1
  unfolding poll_state
  polling_state_kept v s h ne = elim (Option-cases s.resp) [
    | inl gone ↦ absurd (ne (ground arith))
    | inr (resp, e) ↦ rw e (
        update_polling_state_kept (provisioning_state_applicable v resp.status_code)
          (record s { resp = some resp }) h (rw e at ne))
  ]

  Reports-after_checks : (v : Verb) (s : Base) → FailedHasError s → Reports (after_checks p v s)
  unfolding after_checks
  Reports-after_checks v s h =
      Reports-on_error (poll_state p v)
        (on_error (init_polling_method p) (λ e. pure (answer false (some e)))
          (λ _. update_and_conclude p v))
        s (polling_state_kept v s h)
        (λ e.
          let s' = (poll_state p v s).1 in
          let kept = polling_state_kept v s h (λ x. cc) in
          let same = FailedHasError-of_SameStatus (init_polling_method-SameStatus p s') kept in
          Reports-on_error (init_polling_method p) (update_and_conclude p v) s' (λ _. same)
            (λ _. Reports-update_and_conclude v (init_polling_method p s').1 same))

  -- the base after a check of errors is the base before it, so the rest is `after_checks`
  Reports-after_poll : (v : Verb) (s : Base) → FailedHasError s → Reports (after_poll p v s)
  unfolding after_poll
  Reports-after_poll v s h =
      go (check_for_errors p v s).0 (check_for_errors p v s).1 (check_for_errors-same p v s)
    where
      go :
          (r : Result (Unit {0})) (t : Base)
          → t ≡ s
          → Reports (
              handle r
                (λ e u. (ok (answer (terminated p u) (some e)), u))
                (λ _. after_checks p v)
                t)
      go (ok _) t e = rw e (Reports-after_checks v s h)
      go (err x) t e = record {
        has_error = rw e h;
        done_if_terminated = λ y. cc;
        no_error = λ y. cc;
      }
      go panic t e = tt

  -- A poll is sent only while the operation has not terminated, so it starts with no failure.
  pub Reports-after_send :
      (v : Verb) (reply : Reply) (s : Base)
      → has_failed p s.state ≡ false
      → Reports (after_send p v reply s)
  unfolding after_send
  Reports-after_send v reply s h =
      let calm : FailedHasError (accept_reply p reply s).1 =
        λ f. ground (arith, accept_reply-state p reply s) in
      Reports-on_error (accept_reply p reply) (after_poll p v) s (λ _. calm)
        (λ _. Reports-after_poll v (accept_reply p reply s).1 calm)
