-- ===== src/Bearer/Authorize.antt =====
-- autorest/authorization.go: `BearerAuthorizer` over a service principal token, which implements
-- `RefresherWithContext`.
use Prim.Native.String.{◌++◌}
use go_autorest.Prelude.{String, Option, none, some, [], ◌∷◌}
use go_autorest.Http.{Response}
use go_autorest.Errors.{Error, external, token_refresh, original, new_error_with_error}
use go_autorest.Adal.Types.{ServicePrincipalToken, AdalError, refresh_failed, Env}
use go_autorest.Adal.Refresh.{refreshed, refused, panicked, Refreshed, ensure_fresh}
use go_autorest.SharedKey.Canonical.{Request, set_header}

-- What a preparer returns: the request, with an error or without; or it panics.
pub data Prepared : Type 0 where
  prepared : Request → Prepared
  failed_with : Error → Request → Prepared
  panics : Prepared

-- The error's text, by `Error`; `http.CanonicalHeaderKey`.
pub record Texts : Type 0 where
  pub text_of : AdalError → String
  pub canonical_key : String → String

module _ {W : Type 0} (env : Env W) (texts : Texts) where
  -- the type assertion to a `TokenRefreshError`, with its response
  abbrev pub error_of : AdalError → Error × Option Response
  error_of (refresh_failed f args resp) =
      (token_refresh (texts.text_of (refresh_failed f args resp)), some resp)
  error_of e = (external (texts.text_of e), none)

  abbrev pub refresh_error : AdalError → Request → Error
  refresh_error e r =
      let (x, resp) = error_of e in
      new_error_with_error (original x) "azure.BearerAuthorizer" "WithAuthorization" resp
        "Failed to refresh the Token for request to %s" (r.url ∷ [])

  -- `WithHeader` with the token
  abbrev pub with_token : ServicePrincipalToken → Request → Request
  with_token spt r = record r {
    header =
        set_header texts.canonical_key "Authorization" ("Bearer " ++ spt.token.access_token)
          r.header;
  }

  abbrev pub after_refresh : Refreshed W → Request → Prepared × ServicePrincipalToken × W
  after_refresh (refreshed, spt, w) r = (prepared (with_token spt r), spt, w)
  after_refresh (refused e, spt, w) r = (failed_with (refresh_error e r) r, spt, w)
  after_refresh (panicked, spt, w) r = (panics, spt, w)

  -- the decorator of `WithAuthorization`, on what the preparer that it wraps returns
  unfoldable pub with_bearer_authorization :
      Prepared → ServicePrincipalToken → W → Prepared × ServicePrincipalToken × W
  with_bearer_authorization (prepared r) spt w = after_refresh (ensure_fresh env spt w) r
  with_bearer_authorization (failed_with e r) spt w = (failed_with e r, spt, w)
  with_bearer_authorization panics spt w = (panics, spt, w)
