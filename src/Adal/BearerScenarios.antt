-- ===== src/Adal/BearerScenarios.antt =====
-- autorest/authorization.go: a request that a service principal token authorizes.
use go_autorest.Prelude.{◌≡◌, refl, []}
use go_autorest.Adal.Types.{
  new_token, token_secret, ServicePrincipalToken, will_expire_in, expires, is_blank, set,
}
use go_autorest.Adal.Secrets.{get_grant_type, set_authentication_values}
use go_autorest.Adal.Refresh.{
  with_access, call_callbacks, invoke_refresh_callbacks, set_token, expires_on_of, take_ok,
  take_reply, form_values, send_form, request_by, request_token, refresh_internal, refresh_stale,
  ensure_fresh,
}
use go_autorest.SharedKey.Canonical.{Request}
use go_autorest.Bearer.Authorize.{prepared, Texts, with_token, with_bearer_authorization}
use go_autorest.Bearer.Carried.{Authorizes, bearer-Authorizes}
use go_autorest.Adal.Scenarios.{env_of, spt_of, granted}

abbrev texts : Texts
texts = record { text_of = λ e. "error"; canonical_key = λ k. k }

abbrev request : Request
request = record {
  method = "GET";
  url = "https://host/";
  header = record { keys = []; get = λ k. "" };
}

abbrev spt : ServicePrincipalToken
spt = spt_of (token_secret "s")

abbrev refreshed_spt : ServicePrincipalToken
refreshed_spt = record spt { token = with_access granted "" }

-- the first token is expired, so the request carries the one that is granted
authorized_request :
    (with_bearer_authorization (env_of 200) texts (prepared request) spt 0).0
    ≡ prepared (with_token (env_of 200) texts refreshed_spt request)
unfolding with_bearer_authorization ensure_fresh will_expire_in expires refresh_stale
    refresh_internal request_token request_by send_form form_values set_authentication_values
    get_grant_type take_reply take_ok expires_on_of set_token invoke_refresh_callbacks
    call_callbacks is_blank new_token set
authorized_request = refl

bearer-Authorizes_example :
    Authorizes
      (env_of 200)
      texts
      request
      spt
      0
      (with_bearer_authorization (env_of 200) texts (prepared request) spt 0)
bearer-Authorizes_example = bearer-Authorizes (env_of 200) texts request spt 0 refl refl
