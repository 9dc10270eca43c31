-- ===== src/Async/Frames.antt =====
-- What the steps of a poll leave alone.
use go_autorest.Prelude.{
  ℕ, ◌≡◌, refl, ◌≢◌, ◌⊎◌, inl, inr, Bool, true, false, Option, none, some, arith, Option-cases,
}
use go_autorest.Http.{Response, response_has_status_code}
use go_autorest.Errors.{Reply, Error}
use go_autorest.Platform.{Platform}
use go_autorest.Result.{ok, panic}
use go_autorest.Async.Tracker.{Base, Verb, delete, patch, post, put, polling_codes, polling_error}
use go_autorest.Async.Body.{update_raw_body, update_error_from_response}
use go_autorest.Async.Headers.{init_polling_method, init_from_headers, init_from_location}
use go_autorest.Async.State.{
  choose_state, note_failure, update_polling_state, fail_with_response, receive, accept_reply,
  base_check_for_errors,
}
use go_autorest.Async.Future.{poll_state}
use go_autorest.Async.Verbs.{
  provisioning_state_applicable, update_polling_method, check_for_errors, update_by_verb,
  update_delete_or_post, created_needs_location, accepted_with_final, final_location, use_async_op,
  update_patch, update_put, update_by_status, default_to_request, created_by_header, accepted_patch,
  require_location, accepted_put, put_location,
}

-- the state of the operation and its error
pub record SameStatus (s t : Base) : Type 0 where
  pub same_state : t.state ≡ s.state
  pub same_error : t.error ≡ s.error

-- the status code of the last response
abbrev pub code_at : Base → Option ℕ
code_at s = elim s.resp [ none ↦ none | some resp ↦ some resp.status_code ]

module _ (p : Platform) where
  pub init_polling_method-SameStatus : (s : Base) → SameStatus s (init_polling_method p s).1
  unfolding init_polling_method init_from_headers init_from_location
  init_polling_method-SameStatus s = ground arith

  update_by_verb-SameStatus :
      (v : Verb) (r : Response) (s : Base) → SameStatus s (update_by_verb p v r s).1
  unfolding update_by_verb update_delete_or_post created_needs_location accepted_with_final
      final_location use_async_op update_patch update_put update_by_status default_to_request
      created_by_header accepted_patch require_location accepted_put put_location
  update_by_verb-SameStatus delete r s = ground arith
  update_by_verb-SameStatus post r s = ground arith
  update_by_verb-SameStatus patch r s = ground arith
  update_by_verb-SameStatus put r s = ground arith

  pub update_polling_method-SameStatus :
      (v : Verb) (s : Base) → SameStatus s (update_polling_method p v s).1
  unfolding update_polling_method
  update_polling_method-SameStatus v s = elim (Option-cases s.resp) [
    | inl e ↦ rw e (record { same_state = refl; same_error = refl })
    | inr (r, e) ↦ rw e (update_by_verb-SameStatus v r (record s { resp = some r }))
  ]

  pub update_raw_body-SameStatus : (s : Base) → SameStatus s (update_raw_body p s).1
  unfolding update_raw_body
  update_raw_body-SameStatus s = ground arith

  pub check_for_errors-same : (v : Verb) (s : Base) → (check_for_errors p v s).1 ≡ s
  unfolding check_for_errors base_check_for_errors
  check_for_errors-same put s = ground arith
  check_for_errors-same _ s = ground arith

  -- it either panics or leaves an error in the tracker
  pub update_error_from_response_sets :
      (s : Base)
      → ((update_error_from_response p s).0 ≡ panic)
        ⊎ (((update_error_from_response p s).0 ≡ ok tt)
            × ((update_error_from_response p s).1.error ≢ none))
  unfolding update_error_from_response
  update_error_from_response_sets s = ground arith

  pub update_error_from_response-state :
      (s : Base) → (update_error_from_response p s).1.state ≡ s.state
  unfolding update_error_from_response
  update_error_from_response-state s = ground arith

  pub fail_with_response-state : (s : Base) → (fail_with_response p s).1.state ≡ s.state
  unfolding fail_with_response polling_error
  fail_with_response-state s =
      ground (arith, update_error_from_response_sets s, update_error_from_response-state s)

  -- an answer that is no success is always an error, or a panic
  pub fail_with_response-ne-ok : (s : Base) → (fail_with_response p s).0 ≢ ok tt
  unfolding fail_with_response polling_error
  fail_with_response-ne-ok s = ground (arith, update_error_from_response_sets s)

  receive-state : (e : Option Error) (b : Bool) (s : Base) → (receive p e b s).1.state ≡ s.state
  unfolding receive
  receive-state (some e) b s = refl
  receive-state none true s = (update_raw_body-SameStatus (record s { error = none })).same_state
  receive-state none false s = fail_with_response-state s

  pub accept_reply-state : (reply : Reply) (s : Base) → (accept_reply p reply s).1.state ≡ s.state
  unfolding accept_reply
  accept_reply-state reply s =
      receive-state reply.failure (response_has_status_code reply.answer polling_codes)
        (record s { resp = reply.answer })

  pub code_at-update_raw_body : (s : Base) → code_at (update_raw_body p s).1 ≡ code_at s
  unfolding update_raw_body
  code_at-update_raw_body s = ground arith

-- the URLs of the operation
abbrev pub SameUrls : Base → Base → Type 0
SameUrls s t = (t.uri ≡ s.uri) × (t.final_get_uri ≡ s.final_get_uri)

module _ (p : Platform) where
  pub update_error_from_response-SameUrls :
      (s : Base) → SameUrls s (update_error_from_response p s).1
  unfolding update_error_from_response
  update_error_from_response-SameUrls s = ground arith

  pub update_raw_body-SameUrls : (s : Base) → SameUrls s (update_raw_body p s).1
  unfolding update_raw_body
  update_raw_body-SameUrls s = ground arith

  fail_with_response-SameUrls : (s : Base) → SameUrls s (fail_with_response p s).1
  unfolding fail_with_response polling_error
  fail_with_response-SameUrls s =
      ground (arith, update_error_from_response_sets p s, update_error_from_response-SameUrls s)

  receive-SameUrls : (e : Option Error) (b : Bool) (s : Base) → SameUrls s (receive p e b s).1
  unfolding receive
  receive-SameUrls (some e) b s = (refl, refl)
  receive-SameUrls none true s = update_raw_body-SameUrls (record s { error = none })
  receive-SameUrls none false s = fail_with_response-SameUrls s

  pub accept_reply-SameUrls : (reply : Reply) (s : Base) → SameUrls s (accept_reply p reply s).1
  unfolding accept_reply
  accept_reply-SameUrls reply s =
      receive-SameUrls reply.failure (response_has_status_code reply.answer polling_codes)
        (record s { resp = reply.answer })

  note_failure-SameUrls : (s : Base) → SameUrls s (note_failure p s).1
  unfolding note_failure
  note_failure-SameUrls s = ground (arith, update_error_from_response-SameUrls s)

  choose_state-SameUrls : (a : Bool) (s : Base) → SameUrls s (choose_state a s).1
  unfolding choose_state
  choose_state-SameUrls a s = ground arith

  update_polling_state-SameUrls : (a : Bool) (s : Base) → SameUrls s (update_polling_state p a s).1
  unfolding update_polling_state
  update_polling_state-SameUrls a s =
      ground (arith, choose_state-SameUrls a s, note_failure-SameUrls (choose_state a s).1)

  pub poll_state-SameUrls : (v : Verb) (s : Base) → SameUrls s (poll_state p v s).1
  unfolding poll_state
  poll_state-SameUrls v s = elim (Option-cases s.resp) [
    | inl e ↦ rw e (refl, refl)
    | inr (r, e) ↦ rw e (
        update_polling_state-SameUrls (provisioning_state_applicable v r.status_code)
          (record s { resp = some r }))
  ]
