-- ===== src/Bearer/Carried.antt =====
-- autorest/authorization.go: the token that a request carries.
use Prim.Native.String.{◌++◌}
use go_autorest.Prelude.{
  ◌≡◌, ◌≢◌, refl, String, false, ◌&&◌, none, inl, inr, str_eq, eq_iff, if-intro, Bool-cases, arith,
}
use go_autorest.Http.{Response}
use go_autorest.Adal.Types.{ServicePrincipalToken, Env, will_expire_in}
use go_autorest.Adal.Refresh.{
  refreshed, refused, panicked, Refreshed, refresh_internal, refresh_stale, ensure_fresh,
}
use go_autorest.Adal.Granted.{Served, Grants, refreshed-Grants}
use go_autorest.SharedKey.Canonical.{Request, set_header}
use go_autorest.Bearer.Authorize.{
  Prepared, prepared, failed_with, panics, Texts, with_token, after_refresh,
  with_bearer_authorization,
}

module _ {W : Type 0} (env : Env W) (texts : Texts) where
  -- Why a token may be used: it is not to be refreshed; it was tested, before the lock was taken or
  -- under it, and did not expire within the window; or a response just granted it.
  pub data Usable (spt : ServicePrincipalToken) (w : W) : ServicePrincipalToken → Type 0 where
    kept : spt.auto_refresh ≡ false → Usable spt w spt
    tested : will_expire_in env spt.refresh_within spt.token (env.now w) ≡ false → Usable spt w spt
    tested_again :
        will_expire_in env spt.refresh_within spt.token (env.now (env.lock w)) ≡ false
        → Usable spt w spt
    granted :
        (t : ServicePrincipalToken) (resp : Response)
        → Served env resp
        → Grants env resp t.token
        → Usable spt w t

  -- a request with the token, and nothing else of it changed
  pub record Carries (r r' : Request) (spt : ServicePrincipalToken) : Type 0 where
    pub authorization : r'.header.get "Authorization" ≡ "Bearer " ++ spt.token.access_token
    pub same_method : r'.method ≡ r.method
    pub same_url : r'.url ≡ r.url
    pub others :
        (k : String) → texts.canonical_key k ≢ "Authorization" → r'.header.get k ≡ r.header.get k

  abbrev pub Ends : ServicePrincipalToken → W → Refreshed W → Type 0
  Ends spt w (refreshed, t, v) = Usable spt w t
  Ends spt w (refused e, t, v) = Unit {0}
  Ends spt w (panicked, t, v) = Unit {0}

  -- A request that is returned without an error carries a token that may be used; one that is
  -- returned with an error is not changed.
  abbrev pub Authorizes :
      Request → ServicePrincipalToken → W → Prepared × ServicePrincipalToken × W → Type 0
  Authorizes r spt w (prepared r', t, v) = Carries r r' t × Usable spt w t
  Authorizes r spt w (failed_with e r', t, v) = r' ≡ r
  Authorizes r spt w (panics, t, v) = Unit {0}

  refreshed-Ends :
      (spt : ServicePrincipalToken) (w v : W) (x : Refreshed W)
      → spt.custom_refresh_func ≡ none
      → refresh_internal env spt.resource spt v ≡ x
      → Ends spt w x
  refreshed-Ends spt w v (refreshed, t, u) plain e =
      let (resp, s, g) = refreshed-Grants env spt.resource spt t v u plain e in granted t resp s g
  refreshed-Ends spt w v (refused x, t, u) plain e = tt
  refreshed-Ends spt w v (panicked, t, u) plain e = tt

  stale-Ends :
      (spt : ServicePrincipalToken) (w : W)
      → spt.custom_refresh_func ≡ none
      → Ends spt w (refresh_stale env spt (env.lock w))
  unfolding refresh_stale
  stale-Ends spt w plain =
      if-intro (Ends spt w) (will_expire_in env spt.refresh_within spt.token (env.now (env.lock w)))
        (λ _. refreshed-Ends spt w (env.lock w) _ plain refl) (λ e. tested_again e)

  ensure_fresh-Ends :
      (spt : ServicePrincipalToken) (w : W)
      → spt.custom_refresh_func ≡ none
      → Ends spt w (ensure_fresh env spt w)
  unfolding ensure_fresh
  ensure_fresh-Ends spt w plain =
      if-intro (Ends spt w)
        (spt.auto_refresh && will_expire_in env spt.refresh_within spt.token (env.now w))
        (λ _. stale-Ends spt w plain)
        (λ e. elim (Bool-cases spt.auto_refresh) [
          | inl on ↦ tested (ground arith)
          | inr off ↦ kept off
        ])

  with_token-Carries :
      (r : Request) (spt : ServicePrincipalToken)
      → texts.canonical_key "Authorization" ≡ "Authorization"
      → Carries r (with_token env texts spt r) spt
  unfolding set_header
  with_token-Carries r spt law = record {
    authorization = rw ((eq_iff (texts.canonical_key "Authorization") "Authorization").1 law) refl;
    same_method = refl;
    same_url = refl;
    others = λ k ne. elim (Bool-cases (str_eq (texts.canonical_key k) "Authorization")) [
      | inl e ↦ absurd (ne ((eq_iff (texts.canonical_key k) "Authorization").0 e))
      | inr e ↦ rw e refl
    ];
  }

  after_refresh-Authorizes :
      (x : Refreshed W) (r : Request) (spt : ServicePrincipalToken) (w : W)
      → texts.canonical_key "Authorization" ≡ "Authorization"
      → Ends spt w x
      → Authorizes r spt w (after_refresh env texts x r)
  after_refresh-Authorizes (refreshed, t, v) r spt w law h = (with_token-Carries r t law, h)
  after_refresh-Authorizes (refused e, t, v) r spt w law h = refl
  after_refresh-Authorizes (panicked, t, v) r spt w law h = tt

  -- Let no custom function refresh the token. Where the decorator of `WithAuthorization` returns a
  -- request without an error, for one that was prepared, the request carries the access token that
  -- the service principal token then has, and nothing else of it is changed; that token is not
  -- refreshed by itself, or it was tested and does not expire within the window, or it was just
  -- granted by a response. A request that is returned with an error is not changed.
  pub bearer-Authorizes :
      (r : Request) (spt : ServicePrincipalToken) (w : W)
      → texts.canonical_key "Authorization" ≡ "Authorization"
      → spt.custom_refresh_func ≡ none
      → Authorizes r spt w (with_bearer_authorization env texts (prepared r) spt w)
  unfolding with_bearer_authorization
  bearer-Authorizes r spt w law plain =
      after_refresh-Authorizes (ensure_fresh env spt w) r spt w law (ensure_fresh-Ends spt w plain)
