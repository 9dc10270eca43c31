-- ===== src/Async/Urls.antt =====
-- The URLs that a tracker polls and fetches.
use go_autorest.Prelude.{
  String, ◌≡◌, refl, ◌⊎◌, inl, inr, true, some, arith, Option-cases, is_empty, ◌==◌, if◌then◌else◌,
  if-intro,
}
use go_autorest.Http.{Response}
use go_autorest.Platform.{Platform}
use go_autorest.Result.{Exec, continue, pure, ◌>>◌, Result, ok, err, panic}
use go_autorest.Async.Tracker.{Base, async_operation, Verb, delete, patch, post, put}
use go_autorest.Async.Headers.{
  is_valid_url, get_url_from_async_op_header, get_url_from_location_header, init_polling_method,
  init_from_location, init_from_headers,
}
use go_autorest.Async.Verbs.{
  poll_at, location_or_keep, update_polling_method, update_by_verb, use_async_op,
  created_needs_location, accepted_with_final, final_location, update_delete_or_post,
}

module _ (p : Platform) where
  -- no URL, or one that is well-formed and absolute
  abbrev pub IsPollable : String → Type 0
  IsPollable u = (u ≡ "") ⊎ (is_valid_url p u ≡ true)

  abbrev pub Urls : Base → Type 0
  Urls s = IsPollable s.uri × IsPollable s.final_get_uri

  async_op_header-IsPollable :
      (r : Response) (u : String) → get_url_from_async_op_header p r ≡ ok u → IsPollable u
  unfolding get_url_from_async_op_header
  async_op_header-IsPollable r u h = ground arith

  location_header-IsPollable :
      (r : Response) (u : String) → get_url_from_location_header p r ≡ ok u → IsPollable u
  unfolding get_url_from_location_header
  location_header-IsPollable r u h = ground arith

  location_or_keep-IsPollable :
      (r : Result String) (v u : String)
      → ((w : String) → r ≡ ok w → IsPollable w)
      → location_or_keep r v ≡ ok u
      → IsPollable u
  location_or_keep-IsPollable (ok w) v u h e = h u e
  location_or_keep-IsPollable (err x) v u h e = ground arith
  location_or_keep-IsPollable panic v u h e = cc

  -- A header's value is used only where the header was read without an error.
  continue-Urls :
      {A : Type 0} (r : Result A) (k : A → Exec Base (Unit {0})) (s : Base)
      → Urls s
      → ((a : A) → r ≡ ok a → Urls (k a s).1)
      → Urls (continue r k s).1
  continue-Urls (ok a) k s h f = f a refl
  continue-Urls (err e) k s h f = h
  continue-Urls panic k s h f = h

  init_from_location-Urls : (r : Response) (s : Base) → Urls s → Urls (init_from_location p r s).1
  unfolding init_from_location
  init_from_location-Urls r s h =
      continue-Urls (get_url_from_location_header p r) _ s h
        (λ lh e. ground (arith, location_header-IsPollable r lh))

  init_from_headers-Urls : (r : Response) (s : Base) → Urls s → Urls (init_from_headers p r s).1
  unfolding init_from_headers
  init_from_headers-Urls r s h =
      continue-Urls (get_url_from_async_op_header p r) _ s h
        (λ ao e. ground (arith, async_op_header-IsPollable r ao, init_from_location-Urls r s))

  pub init_polling_method-Urls : (s : Base) → Urls s → Urls (init_polling_method p s).1
  unfolding init_polling_method
  init_polling_method-Urls s h = elim (Option-cases s.resp) [
    | inl e ↦ rw e h
    | inr (r, e) ↦ rw e (init_from_headers-Urls r (record s { resp = some r }) h)
  ]

  created_needs_location-Urls :
      (n : String) (r : Response) (s : Base) → Urls s → Urls (created_needs_location p n r s).1
  unfolding created_needs_location
  created_needs_location-Urls n r s h =
      continue-Urls (get_url_from_location_header p r) _ s h
        (λ lh e. ground (arith, location_header-IsPollable r lh))

  -- what follows a step that keeps the URLs keeps them too
  bind-Urls :
      {A : Type 0} (m : Exec Base A) (k : A → Exec Base (Unit {0})) (s : Base)
      → Urls (m s).1
      → ((a : A) → Urls (k a (m s).1).1)
      → Urls (continue (m s).0 k (m s).1).1
  bind-Urls m k s h f = continue-Urls (m s).0 k (m s).1 h (λ a _. f a)

  use_async_op-Urls : (r : Response) (s : Base) → Urls s → Urls (use_async_op p r s).1
  unfolding use_async_op
  use_async_op-Urls r s h = go (get_url_from_async_op_header p r) (async_op_header-IsPollable r)
    where
      go :
          (q : Result String)
          → ((u : String) → q ≡ ok u → IsPollable u)
          → Urls
              (continue q
                (λ ao. if is_empty ao then pure ao else (poll_at async_operation ao >> pure ao))
                s).1
      go (ok ao) f = ground (arith, f ao)
      go (err e) f = h
      go panic f = h

  final_location-Urls :
      (r : Response) (ao : String) (s : Base) → Urls s → Urls (final_location p r ao s).1
  unfolding final_location
  final_location-Urls r ao s h =
      continue-Urls (location_or_keep (get_url_from_location_header p r) s.uri) _ s h (λ lh e.
        let good =
          location_or_keep-IsPollable (get_url_from_location_header p r) s.uri lh
            (location_header-IsPollable r) e in
        ground arith)

  accepted_with_final-Urls : (r : Response) (s : Base) → Urls s → Urls (accepted_with_final p r s).1
  unfolding accepted_with_final
  accepted_with_final-Urls r s h = bind-Urls (use_async_op p r) _ s (use_async_op-Urls r s h) (λ ao.
      let t = (use_async_op p r s).1 in
      let u = final_location-Urls r ao t (use_async_op-Urls r s h) in
      bind-Urls (final_location p r ao) _ t u (λ _.
        if-intro (λ (x : Result (Unit {0}) × Base). Urls x.1)
          (is_empty (final_location p r ao t).1.uri) (λ _. u) (λ _. u)))

  update_delete_or_post-Urls :
      (n : String) (r : Response) (s : Base) → Urls s → Urls (update_delete_or_post p n r s).1
  unfolding update_delete_or_post
  update_delete_or_post-Urls n r s h =
      let Kept = λ (x : Result (Unit {0}) × Base). Urls x.1 in
      if-intro Kept (r.status_code == 201) (λ _. created_needs_location-Urls n r s h)
        (λ _. if-intro Kept (r.status_code == 202) (λ _. accepted_with_final-Urls r s h) (λ _. h))

  -- the verbs whose URLs all come from headers
  abbrev pub FromHeaders : Verb → Type 0
  FromHeaders v = (v ≡ delete) ⊎ (v ≡ post)

  update_by_verb-Urls :
      (v : Verb) (r : Response) (s : Base)
      → FromHeaders v
      → Urls s
      → Urls (update_by_verb p v r s).1
  unfolding update_by_verb
  update_by_verb-Urls delete r s f h = update_delete_or_post-Urls "pollingTrackerDelete" r s h
  update_by_verb-Urls post r s f h = update_delete_or_post-Urls "pollingTrackerPost" r s h
  update_by_verb-Urls patch r s f h = absurd (ground arith)
  update_by_verb-Urls put r s f h = absurd (ground arith)

  pub update_polling_method-Urls :
      (v : Verb) (s : Base) → FromHeaders v → Urls s → Urls (update_polling_method p v s).1
  unfolding update_polling_method
  update_polling_method-Urls v s f h = elim (Option-cases s.resp) [
    | inl e ↦ rw e h
    | inr (r, e) ↦ rw e (update_by_verb-Urls v r (record s { resp = some r }) f h)
  ]
