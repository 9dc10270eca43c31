-- ===== src/Async/NoTracker.antt =====
-- A wait on a future without a tracker, which is not initialized.
use go_autorest.Prelude.{
  ℕ, zero, suc, ◌+◌, ◌≤◌, ◌<◌, String, ◌≡◌, refl, Bool, true, false, none, some, List, [], arith,
  leb, ℤ, if-intro,
}
use go_autorest.Http.{Request}
use go_autorest.Errors.{Reply, new_error}
use go_autorest.Platform.{Platform}
use go_autorest.Preparers.{PrepareDecorator}
use go_autorest.Result.{ok}
use go_autorest.Async.Future.{
  Answer, answer, Session, done_with_context, get_polling_delay, response,
}
use go_autorest.Async.Wait.{
  WaitClient, CancelCtx, cancel_ctx, End, end_panic, plan_delay, Round, stop, again, poll_again,
  pause, follow, round, wait_loop, wait_polling, initial_delay, wait_for_completion_ref,
}

module _ (p : Platform) {W : Type 0} (send : W → Request → Reply × W)
    (ds : List (PrepareDecorator Request)) (wait : CancelCtx → W → ℤ → ℕ → Bool × W)
    (ctx_err : CancelCtx → W → String) (client : WaitClient) where
  abbrev not_initialized : Answer
  not_initialized = answer false (some (new_error "Future" "Done" "future is not initialized" []))

  module _ (ctx : CancelCtx) where
    -- a round on no tracker panics, or goes on to the next attempt with the same answer
    abbrev GoesOn : ℕ → Round W → Type 0
    GoesOn n (stop e s) = e ≡ end_panic
    GoesOn n (again m r s) =
        (n < client.retry_attempts) × (m ≡ n + 1) × (r ≡ ok not_initialized) × (s.tracker ≡ none)

    poll_again-none :
        (n m : ℕ) (s : Session W) (elapsed : Bool)
        → n < client.retry_attempts
        → m ≡ n + 1
        → s.tracker ≡ none
        → GoesOn n (poll_again p send ds wait ctx_err client ctx m s elapsed)
    unfolding poll_again done_with_context
    poll_again-none n m s false l e none_yet = rw none_yet refl
    poll_again-none n m s true l e none_yet = (l, e, rw none_yet refl, rw none_yet refl)

    round-none :
        (n : ℕ) (s : Session W)
        → s.tracker ≡ none
        → GoesOn n (round p send ds wait ctx_err client ctx n (ok not_initialized) s)
    unfolding round plan_delay follow pause
    round-none n s none_yet =
        if-intro (GoesOn n) (leb client.retry_attempts n) (λ _. rw none_yet refl)
          (λ more.
            let (elapsed, w) = wait ctx s.world client.retry_duration n in
            poll_again-none n (n + 1) (record { tracker = s.tracker; world = w }) elapsed
              (ground arith) refl none_yet)

    step_none :
        (fuel n : ℕ) (x : Round W)
        → ((s : Session W)
            → s.tracker ≡ none
            → n < client.retry_attempts
            → (wait_loop p send ds wait ctx_err client ctx fuel (n + 1) (ok not_initialized) s).0
              ≡ end_panic)
        → GoesOn n x
        → (elim x as (λ _. End × Session W) [
          | stop e s' ↦ (e, s')
          | again n' r' s' ↦ wait_loop p send ds wait ctx_err client ctx fuel n' r' s'
        ]).0
          ≡ end_panic
    step_none fuel n (stop e s) ih h = h
    step_none fuel n (again m r s) ih (less, next, same, none_yet) =
        rw (next, same) (ih s none_yet less)

    loop_none :
        (fuel n : ℕ) (s : Session W)
        → s.tracker ≡ none
        → client.retry_attempts < fuel + n
        → n ≤ client.retry_attempts
        → (wait_loop p send ds wait ctx_err client ctx fuel n (ok not_initialized) s).0 ≡ end_panic
    unfolding wait_loop
    loop_none zero n s none_yet room low = absurd (omega arith)
    loop_none (suc fuel) n s none_yet room low =
        step_none fuel n (round p send ds wait ctx_err client ctx n (ok not_initialized) s)
          (λ s' none_then less. loop_none fuel (n + 1) s' none_then (omega arith) (omega arith))
          (round-none n s none_yet)

  -- A future without a tracker is waited on with any sender, clock and client. With more fuel than
  -- the client's retry attempts the wait panics: it never returns the error that `DoneWithContext`
  -- reports for such a future.
  pub wait-without_tracker :
      (has_deadline : Bool) (fuel : ℕ) (w : W)
      → client.retry_attempts < fuel
      → (wait_for_completion_ref p send ds wait ctx_err client has_deadline fuel
          (record { tracker = none; world = w })).0
        ≡ end_panic
  unfolding wait_for_completion_ref get_polling_delay response initial_delay wait_polling
      done_with_context
  wait-without_tracker has_deadline fuel w h =
      loop_none (cancel_ctx has_deadline client.polling_duration) fuel 0
        (record { tracker = none; world = w }) refl (omega arith) (omega arith)
