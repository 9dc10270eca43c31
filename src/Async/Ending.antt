-- ===== src/Async/Ending.antt =====
-- A wait ends: the retry attempts bound the polls that fail, and a number of the world the others.
use go_autorest.Prelude.{
  ℕ, zero, suc, ◌+◌, ◌≤◌, ◌<◌, String, ◌≡◌, refl, ◌≢◌, inl, inr, Bool, true, false, Option, none,
  some, List, Option-cases, arith, leb, ℤ, if-intro, ◌⊎◌,
}
use go_autorest.Http.{Request}
use go_autorest.Errors.{Reply, Error, external}
use go_autorest.Platform.{Platform}
use go_autorest.Preparers.{PrepareDecorator}
use go_autorest.Result.{Result, ok, err, panic}
use go_autorest.Async.Tracker.{Base, Verb}
use go_autorest.Async.State.{accept_reply, receive}
use go_autorest.Async.Create.{Tracker}
use go_autorest.Async.Future.{
  Answer, Session, terminated, prepare_poll, poll, after_send, done_tracker, done_with_context,
  get_polling_delay,
}
use go_autorest.Async.Wait.{
  WaitClient, CancelCtx, Plan, cancel_ctx, End, out_of_fuel, give_up, or_delay, plan_delay, Round,
  stop, again, poll_again, pause, follow, round, wait_loop, wait_polling, begin_polling,
  initial_delay, wait_for_completion_ref,
}

-- an answer that the operation is done, or an error
abbrev Settled : Result Answer → Type 0
Settled (ok a) = (a.done ≡ true) ⊎ ((e : Error) × (a.failure ≡ some e))
Settled (err e) = Unit
Settled panic = Unit

module _ (p : Platform) {W : Type 0} (send : W → Request → Reply × W)
    (ds : List (PrepareDecorator Request)) where
  receive_failed :
      (v : Verb) (m : Error) (reply : Reply) (s : Base)
      → reply.failure ≡ some m
      → Settled (after_send p v reply s).0
  unfolding after_send accept_reply receive
  receive_failed v m reply s h = rw h (inr (_, refl))

  -- `left` bounds how often the sender will still reply without an error.
  module _ (left : W → ℕ) (keeps : (w : W) (r : Request) → left (send w r).1 ≤ left w)
      (fewer : (w : W) (r : Request)
        → (send w r).0.failure ≡ none
        → left (send w r).1 < left w) where
    -- an answer that settles, or a reply without an error used up
    abbrev After : ℕ → Result Answer × Session W → Type 0
    After n x = (Settled x.0 × (left x.1.world ≤ n)) ⊎ (left x.1.world < n)

    poll-After : (t : Tracker) (w : W) (r : Result Request) → After (left w) (poll p send ds t w r)
    unfolding poll
    poll-After t w (err e) = inl (inr (e, refl), omega arith)
    poll-After t w panic = inl (tt, omega arith)
    poll-After t w (ok req) = elim (Option-cases (send w req).0.failure) [
      | inl none_failed ↦ inr (fewer w req none_failed)
      | inr (m, h) ↦ inl (receive_failed t.verb m (send w req).0 t.base h, keeps w req)
    ]

    done_tracker-After : (t : Tracker) (w : W) → After (left w) (done_tracker p send ds t w)
    unfolding done_tracker
    done_tracker-After t w =
        if-intro (After (left w)) (terminated p t.base) (λ _. inl (inl refl, omega arith))
          (λ _. poll-After t w (prepare_poll p ds t.base.uri))

    done-After :
        (f : Option Tracker) (w : W)
        → After (left w) (done_with_context p send ds (record { tracker = f; world = w }))
    unfolding done_with_context
    done-After none w = inl (inr (_, refl), omega arith)
    done-After (some t) w = done_tracker-After t w

    module _ (wait : CancelCtx → W → ℤ → ℕ → Bool × W) (ctx_err : CancelCtx → W → String)
        (client : WaitClient) (ctx : CancelCtx)
        (waits : (w : W) (d : ℤ) (n : ℕ) → left (wait ctx w d n).1 ≤ left w) where
      give_up_ends :
          (e : Option Error) (m : String) (f : Option Tracker) → give_up e m f ≢ out_of_fuel
      give_up_ends e m none = λ x. cc
      give_up_ends e m (some t) = λ x. cc

      -- a round that goes on has used up an attempt or a reply
      abbrev Uses : ℕ → ℕ → Round W → Type 0
      Uses n bound (stop e s) = e ≢ out_of_fuel
      Uses n bound (again m r s) =
          (next : ℕ) × After next (r, s) × (m ≤ client.retry_attempts) × (next + n < bound + m)

      poll_again-Uses :
          (n bound m : ℕ) (s : Session W) (elapsed : Bool)
          → m ≤ client.retry_attempts
          → left s.world + n < bound + m
          → Uses n bound (poll_again p send ds wait ctx_err client ctx m s elapsed)
      unfolding poll_again
      poll_again-Uses n bound m s false l e =
          give_up_ends (some (external (ctx_err ctx s.world))) "context has been cancelled"
            s.tracker
      poll_again-Uses n bound m s true l e = (left s.world, done-After s.tracker s.world, l, e)

      follow-Uses :
          (n bound : ℕ) (s : Session W) (plan : Plan)
          → plan.attempts ≤ client.retry_attempts
          → left s.world + n < bound + plan.attempts
          → Uses n bound (follow p send ds wait ctx_err client ctx s (ok plan))
      unfolding follow pause
      follow-Uses n bound s plan l e =
          let (elapsed, w) = wait ctx s.world plan.delay plan.delay_attempt in
          poll_again-Uses n bound plan.attempts (record { tracker = s.tracker; world = w }) elapsed
            l (omega (arith, waits s.world plan.delay plan.delay_attempt))

      -- the plan after an answer without an error
      steady-Uses :
          (n bound : ℕ) (s : Session W) (d : Result (Option ℤ))
          → n ≤ client.retry_attempts
          → left s.world < bound
          → Uses n bound (
              follow p send ds wait ctx_err client ctx s (elim d as (λ _. Result Plan) [
                | ok d ↦ ok (record {
                  delay = or_delay client.polling_delay d;
                  delay_attempt = 0;
                  attempts = n;
                })
                | err e ↦ err e
                | panic ↦ panic
              ]))
      unfolding follow
      steady-Uses n bound s (ok d) l e = follow-Uses n bound s _ l (omega arith)
      steady-Uses n bound s (err e) l h = λ x. cc
      steady-Uses n bound s panic l h = λ x. cc

      planned-Uses :
          (n bound : ℕ) (s : Session W) (f : Option Error)
          → n < client.retry_attempts
          → left s.world ≤ bound
          → (f ≡ none → left s.world < bound)
          → Uses n bound (
              follow p send ds wait ctx_err client ctx s
                (plan_delay p send ds wait ctx_err client n f s.tracker))
      unfolding plan_delay
      planned-Uses n bound s none l low strict =
          steady-Uses n bound s (get_polling_delay p s.tracker) (omega arith) (strict refl)
      planned-Uses n bound s (some e) l low strict =
          follow-Uses n bound s _ (omega arith) (omega arith)

      round-Uses :
          (n bound : ℕ) (r : Result Answer) (s : Session W)
          → After bound (r, s)
          → Uses n bound (round p send ds wait ctx_err client ctx n r s)
      unfolding round
      round-Uses n bound (err e) s h = λ x. cc
      round-Uses n bound panic s h = λ x. cc
      round-Uses n bound (ok a) s h =
          if-intro (Uses n bound) a.done (λ _ x. cc)
            (λ not_done.
              if-intro (Uses n bound) (leb client.retry_attempts n)
                (λ _. give_up_ends a.failure "the number of retries has been exceeded" s.tracker)
                (λ more. elim h [
                  | inl (inl d, low) ↦ cc
                  | inl (inr (e, q), low) ↦
                      planned-Uses n bound s a.failure (ground arith) low (λ z. cc)
                  | inr low ↦
                      planned-Uses n bound s a.failure (ground arith) (omega arith) (λ _. low)
                ]))

      loop-Uses :
          (fuel n bound : ℕ) (x : Round W)
          → ((m next : ℕ) (r : Result Answer) (s : Session W)
              → After next (r, s)
              → m ≤ client.retry_attempts
              → next + n < bound + m
              → (wait_loop p send ds wait ctx_err client ctx fuel m r s).0 ≢ out_of_fuel)
          → Uses n bound x
          → (elim x as (λ _. End × Session W) [
            | stop e s' ↦ (e, s')
            | again n' r' s' ↦ wait_loop p send ds wait ctx_err client ctx fuel n' r' s'
          ]).0
            ≢ out_of_fuel
      loop-Uses fuel n bound (stop e s) ih h = h
      loop-Uses fuel n bound (again m r s) ih (next, after, low, less) =
          ih m next r s after low less

      loop_ends :
          (fuel n bound : ℕ) (r : Result Answer) (s : Session W)
          → After bound (r, s)
          → client.retry_attempts + bound < fuel + n
          → n ≤ client.retry_attempts
          → (wait_loop p send ds wait ctx_err client ctx fuel n r s).0 ≢ out_of_fuel
      unfolding wait_loop
      loop_ends zero n bound r s h room low = absurd (omega arith)
      loop_ends (suc fuel) n bound r s h room low =
          loop-Uses fuel n bound (round p send ds wait ctx_err client ctx n r s)
            (λ m next r' s' h' l less. loop_ends fuel m next r' s' h' (omega arith) l)
            (round-Uses n bound r s h)

      begin_ends :
          (fuel : ℕ) (s : Session W) (elapsed : Bool)
          → client.retry_attempts + left s.world < fuel
          → (begin_polling p send ds wait ctx_err client ctx fuel s elapsed).0 ≢ out_of_fuel
      unfolding begin_polling wait_polling
      begin_ends fuel s false h = λ x. cc
      begin_ends fuel s true h =
          let (r, s') = done_with_context p send ds s in
          loop_ends fuel 0 (left s.world) r s' (done-After s.tracker s.world) (omega arith)
            (omega arith)

      initial_ends :
          (fuel : ℕ) (s : Session W) (r : Result (Option ℤ))
          → client.retry_attempts + left s.world < fuel
          → (initial_delay p send ds wait ctx_err client ctx fuel s r).0 ≢ out_of_fuel
      unfolding initial_delay pause begin_polling
      initial_ends fuel s (ok none) h = begin_ends fuel s true h
      initial_ends fuel s (ok (some d)) h =
          let (elapsed, w) = wait ctx s.world d 0 in
          begin_ends fuel (record { tracker = s.tracker; world = w }) elapsed
            (omega (arith, waits s.world d 0))
      initial_ends fuel s (err e) h = λ x. cc
      initial_ends fuel s panic h = λ x. cc

-- Let a number of the world bound how often the sender will still reply without an error: each
-- such reply lowers it, and no other reply and no wait raises it. Then, with more fuel than that
-- number and the client's retry attempts together, `WaitForCompletionRef` ends: it returns or
-- panics, from any future.
pub wait_ends :
    (p : Platform) {W : Type 0} (send : W → Request → Reply × W)
    (ds : List (PrepareDecorator Request)) (wait : CancelCtx → W → ℤ → ℕ → Bool × W)
    (ctx_err : CancelCtx → W → String) (client : WaitClient) (has_deadline : Bool) (fuel : ℕ)
    (s : Session W) (left : W → ℕ)
    → ((w : W) (r : Request) → left (send w r).1 ≤ left w)
    → ((w : W) (r : Request) → (send w r).0.failure ≡ none → left (send w r).1 < left w)
    → ((c : CancelCtx) (w : W) (d : ℤ) (n : ℕ) → left (wait c w d n).1 ≤ left w)
    → client.retry_attempts + left s.world < fuel
    → (wait_for_completion_ref p send ds wait ctx_err client has_deadline fuel s).0 ≢ out_of_fuel
unfolding wait_for_completion_ref
wait_ends p send ds wait ctx_err client has_deadline fuel s left keeps fewer waits h =
    let ctx = cancel_ctx has_deadline client.polling_duration in
    initial_ends p send ds left keeps fewer wait ctx_err client ctx (waits ctx) fuel s
      (get_polling_delay p s.tracker) h
