-- ===== src/Async/Wait.antt =====
-- autorest/azure/async.go: `WaitForCompletionRef`. Time is the world's: `wait` is `DelayForBackoff`
-- on the context that cancels, `true` if the delay elapsed.
use go_autorest.Prelude.{
  ℕ, zero, suc, ◌+◌, String, Bool, true, false, Option, none, some, List, [], ℤ, pos, leb,
  if◌then◌else◌,
}
use go_autorest.Http.{Request}
use go_autorest.Errors.{Reply, Error, Original, no_error, original, external, new_error_with_error}
use go_autorest.Platform.{Platform}
use go_autorest.Preparers.{PrepareDecorator}
use go_autorest.Result.{Result, ok, err, panic}
use go_autorest.Async.Create.{Tracker}
use go_autorest.Async.Future.{Answer, Session, done_with_context, get_polling_delay}

-- The fields of `autorest.Client` that the wait reads. A negative number of attempts acts as 0.
pub record WaitClient : Type 0 where
  pub polling_delay : ℤ
  pub polling_duration : ℤ
  pub retry_attempts : ℕ
  pub retry_duration : ℤ

-- The context whose end cancels a delay: the caller's, or one with a timeout.
pub data CancelCtx : Type 0 where
  inherited : CancelCtx
  with_timeout : ℤ → CancelCtx

abbrev nonzero : ℤ → Bool
nonzero (pos zero) = false
nonzero _ = true

unfoldable pub cancel_ctx : Bool → ℤ → CancelCtx
cancel_ctx true d = inherited
cancel_ctx false d = if nonzero d then with_timeout d else inherited

-- How a wait ends: it returns, it panics, or the fuel of the model runs out.
pub data End : Type 0 where
  returned : Option Error → End
  end_panic : End
  out_of_fuel : End

abbrev original_of : Option Error → Original
original_of none = no_error
original_of (some e) = original e

-- `f.pt.latestResponse()`, which panics for a nil tracker, inside the error of a failed wait
abbrev pub give_up : Option Error → String → Option Tracker → End
give_up e message none = end_panic
give_up e message (some t) = returned (
    some (new_error_with_error (original_of e) "Future" "WaitForCompletion" t.base.resp message []))

abbrev pub or_delay : ℤ → Option ℤ → ℤ
or_delay d none = d
or_delay d (some r) = r

-- the delay before the next poll, the exponent of its back-off, and the number of attempts
pub record Plan : Type 0 where
  pub delay : ℤ
  pub delay_attempt : ℕ
  pub attempts : ℕ

-- What a round of the loop leads to.
pub data Round (W : Type 0) : Type 0 where
  stop : End → Session W → Round W
  again : ℕ → Result Answer → Session W → Round W

module _ (p : Platform) {W : Type 0} (send : W → Request → Reply × W)
    (decorators : List (PrepareDecorator Request)) (wait : CancelCtx → W → ℤ → ℕ → Bool × W)
    (ctx_err : CancelCtx → W → String) (client : WaitClient) where
  unfoldable pub plan_delay : ℕ → Option Error → Option Tracker → Result Plan
  plan_delay attempts none f = elim (get_polling_delay p f) [
    | ok d ↦
        ok (record {
          delay = or_delay client.polling_delay d;
          delay_attempt = 0;
          attempts = attempts;
        })
    | err e ↦ err e
    | panic ↦ panic
  ]
  plan_delay attempts (some e) f =
      ok (record {
        delay = client.retry_duration;
        delay_attempt = attempts;
        attempts = attempts + 1;
      })

  module _ (ctx : CancelCtx) where
    unfoldable pub poll_again : ℕ → Session W → Bool → Round W
    poll_again attempts s false =
        stop
          (give_up (some (external (ctx_err ctx s.world))) "context has been cancelled" s.tracker) s
    poll_again attempts s true =
        let (r, s') = done_with_context p send decorators s in again attempts r s'

    -- `DelayForBackoff`, with the world after it
    unfoldable pub pause : Session W → ℤ → ℕ → Bool × Session W
    pause s delay delay_attempt =
        let (elapsed, w) = wait ctx s.world delay delay_attempt in
        (elapsed, record { tracker = s.tracker; world = w })

    unfoldable pub follow : Session W → Result Plan → Round W
    follow s (ok plan) =
        let (elapsed, s') = pause s plan.delay plan.delay_attempt in
        poll_again plan.attempts s' elapsed
    follow s _ = stop end_panic s

    unfoldable pub round : ℕ → Result Answer → Session W → Round W
    round attempts (ok a) s =
        if a.done
        then stop (returned a.failure) s
        else if leb client.retry_attempts attempts
        then stop (give_up a.failure "the number of retries has been exceeded" s.tracker) s
        else follow s (plan_delay attempts a.failure s.tracker)
    round attempts _ s = stop end_panic s

    unfoldable pub wait_loop : ℕ → ℕ → Result Answer → Session W → End × Session W
    wait_loop zero attempts r s = (out_of_fuel, s)
    wait_loop (suc fuel) attempts r s = elim (round attempts r s) [
      | stop e s' ↦ (e, s')
      | again attempts' r' s' ↦ wait_loop fuel attempts' r' s'
    ]

    -- from the first `DoneWithContext` on
    unfoldable pub wait_polling : ℕ → Session W → End × Session W
    wait_polling fuel s =
        let (r, s') = done_with_context p send decorators s in wait_loop fuel 0 r s'

    unfoldable pub begin_polling : ℕ → Session W → Bool → End × Session W
    begin_polling fuel s false = (returned (some (external (ctx_err ctx s.world))), s)
    begin_polling fuel s true = wait_polling fuel s

    -- the delay that the first response asks for
    unfoldable pub initial_delay : ℕ → Session W → Result (Option ℤ) → End × Session W
    initial_delay fuel s (ok none) = wait_polling fuel s
    initial_delay fuel s (ok (some delay)) =
        let (elapsed, s') = pause s delay 0 in begin_polling fuel s' elapsed
    initial_delay fuel s _ = (end_panic, s)

  unfoldable pub wait_for_completion_ref : Bool → ℕ → Session W → End × Session W
  unfolding cancel_ctx
  wait_for_completion_ref has_deadline fuel s =
      initial_delay (cancel_ctx has_deadline client.polling_duration) fuel s
        (get_polling_delay p s.tracker)
