-- ===== src/Async/Creation.antt =====
-- What `createPollingTracker` establishes, and what it does not for a 201 response.
use go_autorest.Prelude.{
  ℕ, String, ◌≡◌, refl, ◌≢◌, false, Option, none, some, inl, inr, arith, Bool-cases, Option-cases,
  ◌==◌, if-intro,
}
use go_autorest.Http.{Response}
use go_autorest.Platform.{Platform, FoldsCase, ascii_fold, is_ascii}
use go_autorest.Result.{Exec, Result, ok, err, panic, continue}
use go_autorest.Async.Tracker.{
  Base, Verb, has_failed, operation_in_progress, operation_succeeded, operation_failed, base_of,
}
use go_autorest.Async.Body.{get_provisioning_state, update_raw_body}
use go_autorest.Async.State.{
  begin, initialize_ok, initialize_by_status, initialize_from, initialize_state,
}
use go_autorest.Async.Verbs.{update_polling_method}
use go_autorest.Async.Create.{
  Tracker, created, start, created_with, create_as, create_polling_tracker, verb_of,
}
use go_autorest.Async.Frames.{
  code_at, code_at-update_raw_body, init_polling_method-SameStatus,
  update_polling_method-SameStatus, fail_with_response-ne-ok,
}
use go_autorest.Async.Failure.{FailedHasError, FailedHasError-of_SameStatus}

in_progress_not_failed : (p : Platform) → FoldsCase p → has_failed p operation_in_progress ≡ false
unfolding has_failed ascii_fold is_ascii
in_progress_not_failed p law =
    ground (
      arith,
      law.folds "InProgress" "Canceled" refl refl,
      law.folds "InProgress" "Failed" refl refl,
    )

succeeded_not_failed : (p : Platform) → FoldsCase p → has_failed p operation_succeeded ≡ false
unfolding has_failed ascii_fold is_ascii
succeeded_not_failed p law =
    ground
      (arith, law.folds "Succeeded" "Canceled" refl refl, law.folds "Succeeded" "Failed" refl refl)

module _ (p : Platform) where
  begin-FailedHasError :
      (st : String) (s : Base) → has_failed p st ≡ false → FailedHasError p (begin p st s).1
  unfolding begin
  begin-FailedHasError st s h f =
      ground (arith, init_polling_method-SameStatus p (record s { state = st }))

  module _ (law : FoldsCase p) where
    initialize_ok-FailedHasError :
        (ps : Option String) (s : Base)
        → (initialize_ok p ps s).0 ≡ ok tt
        → FailedHasError p (initialize_ok p ps s).1
    unfolding initialize_ok
    initialize_ok-FailedHasError none s h =
        begin-FailedHasError operation_succeeded s (succeeded_not_failed p law)
    initialize_ok-FailedHasError (some ps) s h = elim (Bool-cases (has_failed p ps)) [
      | inl e ↦ absurd (fail_with_response-ne-ok p (record s { state = ps }) (rw e at h))
      | inr e ↦ rw e (begin-FailedHasError ps s e)
    ]

    -- of a result and the tracker left: no error returned means that a failure is stored
    abbrev IsEstablished : Result (Unit {0}) × Base → Type 0
    IsEstablished (r, s) = r ≡ ok tt → FailedHasError p s

    provisioned :
        (r : Result (Option String)) (s : Base) → IsEstablished (continue r (initialize_ok p) s)
    provisioned (ok ps) s h = initialize_ok-FailedHasError ps s h
    provisioned (err e) s h = cc
    provisioned panic s h = cc

    initialize_by_status-IsEstablished :
        (code : ℕ) (s : Base) → code ≢ 201 → IsEstablished (initialize_by_status p code s)
    unfolding initialize_by_status
    initialize_by_status-IsEstablished code s ne =
        if-intro IsEstablished (code == 200)
          (λ _. provisioned (get_provisioning_state s.raw_body) s)
          (λ _.
            if-intro IsEstablished (code == 201) (λ e. absurd (ne (ground arith)))
              (λ _.
                if-intro IsEstablished (code == 202)
                  (λ _ _.
                    begin-FailedHasError operation_in_progress s (in_progress_not_failed p law))
                  (λ _.
                    if-intro IsEstablished (code == 204)
                      (λ _ _.
                        begin-FailedHasError operation_succeeded s (succeeded_not_failed p law))
                      (λ _ h.
                        absurd
                          (fail_with_response-ne-ok p (record s { state = operation_failed }) h)))))

    initialize_from-IsEstablished :
        (s : Base) (code : ℕ)
        → code ≢ 201
        → code_at s ≡ some code
        → IsEstablished (initialize_from p s)
    unfolding initialize_from
    initialize_from-IsEstablished s code ne at = elim (Option-cases s.resp) [
      | inl gone ↦ absurd (ground arith)
      | inr (resp, e) ↦ rw e (
          initialize_by_status-IsEstablished resp.status_code (record s { resp = some resp })
            (λ c. ne (ground arith)))
    ]

    then-IsEstablished :
        (m : Exec Base (Unit {0})) (r : Result (Unit {0})) (s : Base)
        → IsEstablished (m s)
        → IsEstablished (continue r (λ _. m) s)
    then-IsEstablished m (ok _) s h k = h k
    then-IsEstablished m (err e) s h k = cc
    then-IsEstablished m panic s h k = cc

    initialize_state-IsEstablished :
        (resp : Response)
        → resp.status_code ≢ 201
        → IsEstablished (initialize_state p (base_of resp))
    unfolding initialize_state
    initialize_state-IsEstablished resp ne =
        let before = record (base_of resp) { method = resp.request_method } in
        let after = (update_raw_body p before).1 in
        then-IsEstablished (initialize_from p) (update_raw_body p before).0 after (
          initialize_from-IsEstablished after resp.status_code ne
            (code_at-update_raw_body p before))

    start-IsEstablished :
        (v : Verb) (resp : Response)
        → resp.status_code ≢ 201
        → IsEstablished (start p v (base_of resp))
    unfolding start
    start-IsEstablished v resp ne =
        go (initialize_state p (base_of resp)).0 (initialize_state p (base_of resp)).1
          (initialize_state-IsEstablished resp ne)
      where
        go :
            (r : Result (Unit {0})) (s : Base)
            → (r ≡ ok tt → FailedHasError p s)
            → IsEstablished (continue r (λ _. update_polling_method p v) s)
        go (ok _) s h k =
            FailedHasError-of_SameStatus p (update_polling_method-SameStatus p v s) (h refl)
        go (err e) s h k = cc
        go panic s h k = cc

created_with-none :
    (v : Verb) (r : Result (Unit {0})) (s : Base) (t : Tracker)
    → created_with v (r, s) ≡ created t none
    → (r ≡ ok tt) × (t.base ≡ s)
created_with-none v (ok _) s t e = (refl, ground arith)
created_with-none v (err x) s t e = cc
created_with-none v panic s t e = cc

module _ (p : Platform) (law : FoldsCase p) (resp : Response) (t : Tracker) where
  create_as-FailedHasError :
      (v : Option Verb)
      → resp.status_code ≢ 201
      → create_as p v resp ≡ created t none
      → FailedHasError p t.base
  unfolding create_as
  create_as-FailedHasError none ne e = cc
  create_as-FailedHasError (some v) ne e =
      let made = start p v (base_of resp) in
      let (fine, same) = created_with-none v made.0 made.1 t e in
      rw same (start-IsEstablished p law v resp ne fine)

  -- Let the first response have another status than 201. If `createPollingTracker` returns a
  -- tracker without an error, the tracker holds an error whenever its state is failed or canceled.
  pub create-FailedHasError :
      resp.status_code ≢ 201
      → create_polling_tracker p resp ≡ created t none
      → FailedHasError p t.base
  unfolding create_polling_tracker
  create-FailedHasError ne e =
      create_as-FailedHasError (verb_of (p.to_upper resp.request_method)) ne e
