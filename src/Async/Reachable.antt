-- ===== src/Async/Reachable.antt =====
-- A tracker that was updated without an error has a URL to poll.
use go_autorest.Prelude.{
  String, ◌≡◌, refl, subst, ◌≢◌, false, some, arith, is_empty, eq_iff, ◌==◌, if-intro,
}
use go_autorest.Http.{Response}
use go_autorest.Platform.{Platform}
use go_autorest.Result.{Exec, continue, Result, ok, err, panic}
use go_autorest.Async.Tracker.{Base, Verb, delete, patch, post, put}
use go_autorest.Async.Headers.{get_url_from_location_header}
use go_autorest.Async.Verbs.{
  require_uri, update_polling_method, update_by_verb, use_async_op, accepted_with_final,
  final_location, accepted_patch, require_location, accepted_put, put_location,
  update_delete_or_post, update_patch, update_put, update_by_status, default_to_request,
}

-- if no error was returned, a polling URL was found
abbrev HasUri : Result (Unit {0}) × Base → Type 0
HasUri (r, s) = r ≡ ok tt → is_empty s.uri ≡ false

module _ (p : Platform) where
  continue-HasUri :
      {A : Type 0} (r : Result A) (k : A → Exec Base (Unit {0})) (s : Base)
      → ((a : A) → r ≡ ok a → HasUri (k a s))
      → HasUri (continue r k s)
  continue-HasUri (ok a) k s f h = f a refl h
  continue-HasUri (err e) k s f h = cc
  continue-HasUri panic k s f h = cc

  require_uri-HasUri : (n : String) (s : Base) → HasUri (require_uri n s)
  require_uri-HasUri n s h = ground arith

  accepted_with_final-HasUri : (r : Response) (s : Base) → HasUri (accepted_with_final p r s)
  unfolding accepted_with_final
  accepted_with_final-HasUri r s =
      let t = (use_async_op p r s).1 in
      continue-HasUri (use_async_op p r s).0 _ t (λ ao _.
        continue-HasUri (final_location p r ao t).0 _ (final_location p r ao t).1
          (λ _ _. require_uri-HasUri "pollingTrackerPost" (final_location p r ao t).1))

  accepted_put-HasUri : (r : Response) (s : Base) → HasUri (accepted_put p r s)
  unfolding accepted_put
  accepted_put-HasUri r s =
      let t = (use_async_op p r s).1 in
      continue-HasUri (use_async_op p r s).0 _ t (λ ao _.
        continue-HasUri (put_location p r ao t).0 _ (put_location p r ao t).1
          (λ _ _. require_uri-HasUri "pollingTrackerPut" (put_location p r ao t).1))

  -- the value that `use_async_op` keeps is the URL it polls
  use_async_op-uri :
      (r : Response) (s : Base) (ao : String)
      → (use_async_op p r s).0 ≡ ok ao
      → is_empty ao ≡ false
      → (use_async_op p r s).1.uri ≡ ao
  unfolding use_async_op
  use_async_op-uri r s ao h e = ground arith

  require_location-HasUri :
      (r : Response) (ao : String) (s : Base)
      → (is_empty ao ≡ false → s.uri ≡ ao)
      → HasUri (require_location p r ao s)
  unfolding require_location
  require_location-HasUri r ao s f =
      if-intro HasUri (is_empty ao)
        (λ _. continue-HasUri (get_url_from_location_header p r) _ s (λ lh _ h. ground arith))
        (λ e h. rw (f e) e)

  accepted_patch-HasUri : (r : Response) (s : Base) → HasUri (accepted_patch p r s)
  unfolding accepted_patch
  accepted_patch-HasUri r s =
      let t = (use_async_op p r s).1 in
      continue-HasUri (use_async_op p r s).0 _ t
        (λ ao e. require_location-HasUri r ao t (λ filled. use_async_op-uri r s ao e filled))

  delete_or_post :
      (n : String) (r : Response) (s : Base)
      → r.status_code ≡ 202
      → HasUri (update_delete_or_post p n r s)
  unfolding update_delete_or_post
  delete_or_post n r s e =
      if-intro HasUri (r.status_code == 201) (λ c. absurd (ground arith))
        (λ _.
          if-intro HasUri (r.status_code == 202) (λ _. accepted_with_final-HasUri r s)
            (λ c. absurd (ground arith)))

  by_status :
      (accepted : Response → Exec Base (Unit {0})) (r : Response) (s : Base)
      → HasUri (accepted r s)
      → r.status_code ≡ 202
      → HasUri (update_by_status p accepted r s)
  unfolding update_by_status
  by_status accepted r s h e =
      if-intro HasUri (r.status_code == 201) (λ c. absurd (ground arith))
        (λ _. if-intro HasUri (r.status_code == 202) (λ _. h) (λ c. absurd (ground arith)))

  update_by_verb-HasUri :
      (v : Verb) (r : Response) (s : Base) → r.status_code ≡ 202 → HasUri (update_by_verb p v r s)
  unfolding update_by_verb update_patch update_put default_to_request
  update_by_verb-HasUri delete r s e = delete_or_post "pollingTrackerDelete" r s e
  update_by_verb-HasUri post r s e = delete_or_post "pollingTrackerPost" r s e
  update_by_verb-HasUri patch r s e = by_status (accepted_patch p) r _ (accepted_patch-HasUri r _) e
  update_by_verb-HasUri put r s e = by_status (accepted_put p) r _ (accepted_put-HasUri r _) e

  update_polling_method-HasUri :
      (v : Verb) (r : Response) (s : Base)
      → s.resp ≡ some r
      → r.status_code ≡ 202
      → HasUri (update_polling_method p v s)
  unfolding update_polling_method
  update_polling_method-HasUri v r s same e =
      rw same (update_by_verb-HasUri v r (record s { resp = some r }) e)

  -- If `updatePollingMethod` takes a response of status 202 without an error, for any of the four
  -- verbs, the tracker has a polling URL that is not empty.
  pub accepted_has_uri :
      (v : Verb) (r : Response) (s t : Base)
      → s.resp ≡ some r
      → r.status_code ≡ 202
      → update_polling_method p v s ≡ (ok tt, t)
      → t.uri ≢ ""
  accepted_has_uri v r s t same e done =
      let found = subst HasUri done (update_polling_method-HasUri v r s same e) refl in
      ground (arith, eq_iff t.uri "")
