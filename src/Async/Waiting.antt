-- ===== src/Async/Waiting.antt =====
-- How `WaitForCompletionRef` ends.
use go_autorest.Prelude.{
  ℕ, zero, suc, String, ◌≡◌, refl, subst, Bool, true, false, Option, none, some, List, leb, ℤ,
  if-intro,
}
use go_autorest.Http.{Request}
use go_autorest.Errors.{Reply, Error, external}
use go_autorest.Platform.{Platform}
use go_autorest.Preparers.{PrepareDecorator}
use go_autorest.Result.{Result, ok, err, panic}
use go_autorest.Async.Tracker.{has_succeeded}
use go_autorest.Async.Create.{Tracker}
use go_autorest.Async.Future.{Answer, Session, done_with_context, get_polling_delay}
use go_autorest.Async.Failure.{FailedHasError}
use go_autorest.Async.Done.{SessionReports, SessionReports-done, Reported-has_succeeded}
use go_autorest.Async.Wait.{
  WaitClient, CancelCtx, cancel_ctx, End, returned, give_up, Plan, plan_delay, Round, stop, again,
  poll_again, pause, follow, round, wait_loop, wait_polling, begin_polling, initial_delay,
  wait_for_completion_ref,
}

module _ (p : Platform) {W : Type 0} (send : W → Request → Reply × W)
    (ds : List (PrepareDecorator Request)) (wait : CancelCtx → W → ℤ → ℕ → Bool × W)
    (ctx_err : CancelCtx → W → String) (client : WaitClient) (ctx : CancelCtx) where
  -- the first error of a wait that succeeds: none, in a state that is Succeeded
  abbrev Succeeds : End × Session W → Type 0
  Succeeds (returned none, s) =
      (t : Tracker) × (s.tracker ≡ some t) × (has_succeeded p t.base.state ≡ true)
  Succeeds _ = Unit

  done-Succeeds :
      (f : Option Error) (a : Answer) (s : Session W)
      → a.failure ≡ f
      → a.done ≡ true
      → SessionReports p (ok a, s)
      → Succeeds (returned f, s)
  done-Succeeds none a s e d (t, same, rep) = (t, same, Reported-has_succeeded p a t.base rep d e)
  done-Succeeds (some x) a s e d h = tt

  give_up-Succeeds :
      (e : Option Error) (m : String) (f : Option Tracker) (s : Session W)
      → Succeeds (give_up e m f, s)
  give_up-Succeeds e m none s = tt
  give_up-Succeeds e m (some t) s = tt

  -- a round that stops ends well, and one that goes on has a report
  abbrev RoundReports : Round W → Type 0
  RoundReports (stop e s) = Succeeds (e, s)
  RoundReports (again n r s) = SessionReports p (r, s)

  poll_again_reports :
      (n : ℕ) (t : Tracker) (s : Session W) (elapsed : Bool)
      → s.tracker ≡ some t
      → FailedHasError p t.base
      → RoundReports (poll_again p send ds wait ctx_err client ctx n s elapsed)
  unfolding poll_again
  poll_again_reports n t s false same h =
      give_up-Succeeds (some (external (ctx_err ctx s.world))) "context has been cancelled"
        s.tracker s
  poll_again_reports n t s true same h = SessionReports-done p send ds t s same h

  follow_reports :
      (plan : Result Plan) (t : Tracker) (s : Session W)
      → s.tracker ≡ some t
      → FailedHasError p t.base
      → RoundReports (follow p send ds wait ctx_err client ctx s plan)
  unfolding follow pause
  follow_reports (ok plan) t s same h =
      let (elapsed, w) = wait ctx s.world plan.delay plan.delay_attempt in
      poll_again_reports plan.attempts t (record { tracker = s.tracker; world = w }) elapsed same h
  follow_reports (err e) t s same h = tt
  follow_reports panic t s same h = tt

  round_reports :
      (n : ℕ) (r : Result Answer) (s : Session W)
      → SessionReports p (r, s)
      → RoundReports (round p send ds wait ctx_err client ctx n r s)
  unfolding round
  round_reports n (ok a) s (t, same, rep) =
      if-intro RoundReports a.done (λ d. done-Succeeds a.failure a s refl d (t, same, rep))
        (λ _.
          if-intro RoundReports (leb client.retry_attempts n)
            (λ _. give_up-Succeeds a.failure "the number of retries has been exceeded" s.tracker s)
            (λ _.
              follow_reports (plan_delay p send ds wait ctx_err client n a.failure s.tracker) t s
                same rep.has_error))
  round_reports n (err e) s h = tt
  round_reports n panic s h = tt

  loop_step :
      (fuel : ℕ) (x : Round W)
      → ((n : ℕ) (r : Result Answer) (s : Session W)
          → SessionReports p (r, s)
          → Succeeds (wait_loop p send ds wait ctx_err client ctx fuel n r s))
      → RoundReports x
      → Succeeds (elim x [
        | stop e s' ↦ (e, s')
        | again n' r' s' ↦ wait_loop p send ds wait ctx_err client ctx fuel n' r' s'
      ])
  loop_step fuel (stop e s) ih h = h
  loop_step fuel (again n r s) ih h = ih n r s h

  loop-Succeeds :
      (fuel n : ℕ) (r : Result Answer) (s : Session W)
      → SessionReports p (r, s)
      → Succeeds (wait_loop p send ds wait ctx_err client ctx fuel n r s)
  unfolding wait_loop
  loop-Succeeds zero n r s h = tt
  loop-Succeeds (suc fuel) n r s h =
      loop_step fuel (round p send ds wait ctx_err client ctx n r s) (loop-Succeeds fuel)
        (round_reports n r s h)

  polling-Succeeds :
      (fuel : ℕ) (t : Tracker) (s : Session W)
      → s.tracker ≡ some t
      → FailedHasError p t.base
      → Succeeds (wait_polling p send ds wait ctx_err client ctx fuel s)
  unfolding wait_polling
  polling-Succeeds fuel t s same h =
      let (r, s') = done_with_context p send ds s in
      loop-Succeeds fuel 0 r s' (SessionReports-done p send ds t s same h)

  begin-Succeeds :
      (fuel : ℕ) (t : Tracker) (s : Session W) (elapsed : Bool)
      → s.tracker ≡ some t
      → FailedHasError p t.base
      → Succeeds (begin_polling p send ds wait ctx_err client ctx fuel s elapsed)
  unfolding begin_polling
  begin-Succeeds fuel t s false same h = tt
  begin-Succeeds fuel t s true same h = polling-Succeeds fuel t s same h

  initial-Succeeds :
      (fuel : ℕ) (t : Tracker) (s : Session W) (r : Result (Option ℤ))
      → s.tracker ≡ some t
      → FailedHasError p t.base
      → Succeeds (initial_delay p send ds wait ctx_err client ctx fuel s r)
  unfolding initial_delay pause
  initial-Succeeds fuel t s (ok none) same h = polling-Succeeds fuel t s same h
  initial-Succeeds fuel t s (ok (some d)) same h =
      let (elapsed, w) = wait ctx s.world d 0 in
      begin-Succeeds fuel t (record { tracker = s.tracker; world = w }) elapsed same h
  initial-Succeeds fuel t s (err e) same h = tt
  initial-Succeeds fuel t s panic same h = tt

module _ (p : Platform) {W : Type 0} (send : W → Request → Reply × W)
    (ds : List (PrepareDecorator Request)) (wait : CancelCtx → W → ℤ → ℕ → Bool × W)
    (ctx_err : CancelCtx → W → String) (client : WaitClient) where
  -- Let the tracker of a future have an error whenever its state is failed or canceled. If
  -- `WaitForCompletionRef` returns no error, whatever the sender and the clock did, it leaves a
  -- tracker whose state is Succeeded, in any case of letters.
  pub wait-has_succeeded :
      (has_deadline : Bool) (fuel : ℕ) (t : Tracker) (w : W) (s : Session W)
      → FailedHasError p t.base
      → wait_for_completion_ref p send ds wait ctx_err client has_deadline fuel
          (record { tracker = some t; world = w })
        ≡ (returned none, s)
      → (t' : Tracker) × (s.tracker ≡ some t') × (has_succeeded p t'.base.state ≡ true)
  unfolding wait_for_completion_ref
  wait-has_succeeded has_deadline fuel t w s h e =
      let ctx = cancel_ctx has_deadline client.polling_duration in
      let begun : Session W = record { tracker = some t; world = w } in
      subst (Succeeds p send ds wait ctx_err client ctx) e (
        initial-Succeeds p send ds wait ctx_err client ctx fuel t begun
          (get_polling_delay p (some t)) refl h)
