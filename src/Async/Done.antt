-- ===== src/Async/Done.antt =====
-- What `DoneWithContext` tells its caller of the operation.
use go_autorest.Prelude.{
  String, subst, sym, ◌∙◌, ◌≡◌, refl, true, false, none, some, List, inl, inr, arith, Bool-cases,
}
use go_autorest.Http.{Request}
use go_autorest.Errors.{Reply}
use go_autorest.Platform.{Platform}
use go_autorest.Preparers.{PrepareDecorator}
use go_autorest.Result.{Result, ok, err, panic}
use go_autorest.Async.Tracker.{Base, has_failed, has_succeeded, has_terminated}
use go_autorest.Async.Create.{Tracker}
use go_autorest.Async.Future.{
  Answer, answer, Session, terminated, prepare_poll, after_send, with_base, poll, done_tracker,
  done_with_context,
}
use go_autorest.Async.Failure.{
  FailedHasError, Reported, Reports, Reports-after_send, Reports-fail, Reports-conclude,
}

module _ (p : Platform) where
  not_failed : (s : String) → has_terminated p s ≡ false → has_failed p s ≡ false
  unfolding has_failed has_terminated
  not_failed s h = ground arith

  succeeded_of_terminated :
      (s : String) → has_terminated p s ≡ true → has_failed p s ≡ false → has_succeeded p s ≡ true
  unfolding has_failed has_terminated has_succeeded
  succeeded_of_terminated s h k = ground arith

  pub Reported-has_succeeded :
      (a : Answer) (s : Base)
      → Reported p a s
      → a.done ≡ true
      → a.failure ≡ none
      → has_succeeded p s.state ≡ true
  Reported-has_succeeded a s rep d f =
      succeeded_of_terminated s.state (sym (rep.done_if_terminated f) ∙ d)
        (elim (Bool-cases (has_failed p s.state)) [
          | inl e ↦ absurd (rep.has_error e (rep.no_error f))
          | inr e ↦ e
        ])

module _ (p : Platform) {W : Type 0} where
  -- an answer comes with a tracker that bears it out
  abbrev pub SessionReports : Result Answer × Session W → Type 0
  SessionReports (ok a, s) = (t : Tracker) × (s.tracker ≡ some t) × Reported p a t.base
  SessionReports (err e, s) = ⊥
  SessionReports (panic, s) = Unit

  module _ (send : W → Request → Reply × W) (decorators : List (PrepareDecorator Request)) where
    SessionReports-with_base :
        (w : W) (t : Tracker) (r : Result Answer) (s : Base)
        → Reports p (r, s)
        → SessionReports (with_base p send decorators w t (r, s))
    SessionReports-with_base w t (ok a) s h = (record t { base = s }, refl, h)
    SessionReports-with_base w t (err e) s h = h
    SessionReports-with_base w t panic s h = tt

    SessionReports-poll :
        (t : Tracker) (w : W) (r : Result Request)
        → has_failed p t.base.state ≡ false
        → SessionReports (poll p send decorators t w r)
    unfolding poll
    SessionReports-poll t w (err e) h = (t, refl, Reports-fail p e t.base (λ f. cc))
    SessionReports-poll t w panic h = tt
    SessionReports-poll t w (ok req) h =
        let (reply, w') = send w req in
        let (r, s) = after_send p t.verb reply t.base in
        SessionReports-with_base w' t r s (Reports-after_send p t.verb reply t.base h)

    SessionReports-done_tracker :
        (t : Tracker) (w : W)
        → FailedHasError p t.base
        → SessionReports (done_tracker p send decorators t w)
    unfolding done_tracker
    SessionReports-done_tracker t w h = elim (Bool-cases (terminated p t.base)) [
      | inl e ↦ rw e (t, refl, rw e at (Reports-conclude p t.base h))
      | inr e ↦ rw e (
          SessionReports-poll t w (prepare_poll p decorators t.base.uri)
            (not_failed p t.base.state e))
    ]

    -- Let the tracker of a future have an error whenever its state is failed or canceled. Then
    -- `DoneWithContext` either panics or returns an answer; it keeps that property, an answer
    -- without an error says exactly whether the state is terminal, and no error is stored then.
    pub done-reports :
        (t : Tracker) (w : W)
        → FailedHasError p t.base
        → SessionReports
            (done_with_context p send decorators (record { tracker = some t; world = w }))
    unfolding done_with_context
    done-reports t w h = SessionReports-done_tracker t w h

    -- Let the tracker of a future have an error whenever its state is failed or canceled. If
    -- `DoneWithContext` answers true without an error, the tracker it leaves is in a state that is
    -- Succeeded, in any case of letters, and holds no error.
    pub done-has_succeeded :
        (t : Tracker) (w : W) (s : Session W)
        → FailedHasError p t.base
        → done_with_context p send decorators (record { tracker = some t; world = w })
          ≡ (ok (answer true none), s)
        → (t' : Tracker) × (s.tracker ≡ some t')
          × (has_succeeded p t'.base.state ≡ true)
          × (t'.base.error ≡ none)
    done-has_succeeded t w s h e =
        let (t', same, rep) = subst SessionReports e (done-reports t w h) in
        (
          t',
          same,
          Reported-has_succeeded p (answer true none) t'.base rep refl refl,
          rep.no_error refl,
        )

    pub SessionReports-done :
        (t : Tracker) (s : Session W)
        → s.tracker ≡ some t
        → FailedHasError p t.base
        → SessionReports (done_with_context p send decorators s)
    SessionReports-done t s same h =
        subst
          (λ f.
            SessionReports
              (done_with_context p send decorators (record { tracker = f; world = s.world })))
          (sym same) (done-reports t s.world h)
