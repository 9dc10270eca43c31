-- ===== src/Adal/Refresh.antt =====
-- autorest/adal/token.go: `refreshInternal`, `parseExpiresOn`, the callbacks after a refresh, and
-- the methods that refresh.
use go_autorest.Prelude.{
  String, Bool, not, ◌&&◌, Option, none, some, List, [], ◌∷◌, ℤ, ◌⊎◌, inl, inr, if◌then◌else◌,
  is_empty, str_eq, ◌==◌,
}
use go_autorest.Json.{Json, null, num, str}
use go_autorest.Http.{Response, Body, readable, broken}
use go_autorest.Errors.{Error, Reply}
use go_autorest.Platform.{Decoded, decoded, malformed}
use go_autorest.Adal.Types.{
  Token, MsiType, unavailable, app_service_v20170901, cloud_shell, imds, Secret, no_secret,
  token_secret, certificate_secret, msi_secret, username_password_secret, authorization_code_secret,
  federated_secret, ServicePrincipalToken, AdalError, failed, caused, refresh_failed, passed,
  Values, set, TokenRequest, TokenReply, Env, is_blank, will_expire_in,
}
use go_autorest.Adal.Secrets.{get_grant_type, set_authentication_values}
use go_autorest.Adal.Imds.{Run, retry_for_imds}

-- How a refresh ends. A nil token of a custom function, and a nil body, panic.
pub data Done : Type 0 where
  refreshed : Done
  refused : AdalError → Done
  panicked : Done

-- the end, the token and the world after it
abbrev pub Refreshed : Type 0 → Type 0
Refreshed W = Done × ServicePrincipalToken × W

abbrev pub callback_format : String
callback_format = "adal: TokenRefreshCallback handler failed. Error = '%v'"

abbrev pub with_access : TokenReply → String → Token
with_access r expires_on = record r.token { expires_on = expires_on }

module _ {W : Type 0} (env : Env W) where
  -- the loop over the callbacks
  abbrev pub next_callback : Option String × W → (W → Option AdalError × W) → Option AdalError × W
  next_callback (some e, w) k = (some (failed callback_format (e ∷ [])), w)
  next_callback (none, w) k = k w

  unfoldable pub call_callbacks : List String → Token → W → Option AdalError × W
  call_callbacks [] t w = (none, w)
  call_callbacks (f ∷ fs) t w = next_callback (env.refresh_callback f t w) (call_callbacks fs t)

  abbrev pub called_back : ServicePrincipalToken → Option AdalError × W → Refreshed W
  called_back spt (none, w) = (refreshed, spt, w)
  called_back spt (some e, w) = (refused e, spt, w)

  -- `InvokeRefreshCallbacks`, which gives them the token of `spt`
  unfoldable pub invoke_refresh_callbacks : ServicePrincipalToken → W → Refreshed W
  invoke_refresh_callbacks spt w =
      called_back spt (call_callbacks spt.refresh_callbacks spt.token w)

  unfoldable pub set_token : Token → ServicePrincipalToken → W → Refreshed W
  set_token t spt w = invoke_refresh_callbacks (record spt { token = t }) w

  abbrev pub parsed_time : String ⊎ ℤ → (String → String ⊎ String) → String ⊎ String
  parsed_time (inr t) k = inr (env.format_int t)
  parsed_time (inl e) k = k e

  -- `parseExpiresOn`
  unfoldable pub parse_expires_on : Json → String ⊎ String
  parse_expires_on (num n) = inr (env.cut_number n)
  parse_expires_on (str s) =
      if env.is_int64 s
      then inr s
      else parsed_time (env.parse_time "1/2/2006 15:04:05 PM +00:00" s)
          (λ _. parsed_time (env.parse_time "1/2/2006 15:04:05 +00:00" s) (λ e. inl e))
  parse_expires_on _ = inl "unexpected expires_on type %T"

  -- `token.ExpiresOn`, which may be absent
  unfoldable pub expires_on_of : Json → String ⊎ String
  expires_on_of null = inr ""
  expires_on_of v = parse_expires_on v

  abbrev pub take_token :
      String ⊎ String → TokenReply → Response → ServicePrincipalToken → W → Refreshed W
  take_token (inl e) r resp spt w = (
    refused (refresh_failed "adal: failed to parse expires_on: %v value '%s'" (e ∷ []) resp),
    spt,
    w,
  )
  take_token (inr expires_on) r resp spt w = set_token (with_access r expires_on) spt w

  abbrev pub take_decoded :
      Decoded TokenReply → String → Response → ServicePrincipalToken → W → Refreshed W
  take_decoded (malformed e) b resp spt w = (
    refused (
        refresh_failed
          "adal: Failed to unmarshal the service principal token during refresh. Error = '%v' JSON = '%s'"
          (e ∷ b ∷ []) resp),
    spt,
    w,
  )
  take_decoded (decoded r) b resp spt w = take_token (expires_on_of r.expires_on) r resp spt w

  -- a reply of status 200, by its body
  unfoldable pub take_ok : Body → Response → ServicePrincipalToken → W → Refreshed W
  take_ok (broken e) resp spt w = (
    refused (
        failed "adal: Failed to read a new service principal token during refresh. Error = '%v'"
          (e ∷ [])),
    spt,
    w,
  )
  take_ok (readable b) resp spt w =
      if is_blank b
      then (
        refused (failed "adal: Empty service principal token received during refresh" []),
        spt,
        w,
      )
      else take_decoded (env.unmarshal_token b) b resp spt w

  abbrev pub not_ok : Body → String → Response → AdalError
  not_ok (broken e) url resp =
      refresh_failed
        "adal: Refresh request failed. Status Code = '%d'. Failed reading response body: %v Endpoint %s"
        (e ∷ url ∷ []) resp
  not_ok (readable b) url resp =
      refresh_failed
        "adal: Refresh request failed. Status Code = '%d'. Response body: %s Endpoint %s"
        (b ∷ url ∷ []) resp

  abbrev pub take_body : Option Body → String → Response → ServicePrincipalToken → W → Refreshed W
  take_body none url resp spt w = (panicked, spt, w)
  take_body (some b) url resp spt w =
      if resp.status_code == 200
      then take_ok b resp spt w
      else (refused (not_ok b url resp), spt, w)

  abbrev pub take_answer :
      Option Error → Option Response → String → ServicePrincipalToken → W → Refreshed W
  take_answer (some e) resp url spt w =
      (refused (caused "adal: Failed to execute the refresh request. Error = '%v'" e), spt, w)
  take_answer none none url spt w =
      (refused (failed "adal: received nil response and error" []), spt, w)
  take_answer none (some resp) url spt w = take_body resp.body url resp spt w

  -- what the refresh does with what the sender returned, by the URL of the request
  unfoldable pub take_reply : String → Reply → ServicePrincipalToken → W → Refreshed W
  take_reply url r spt w = take_answer r.failure r.answer url spt w

  abbrev pub cloud_values : ServicePrincipalToken → String → Values
  cloud_values spt resource_id =
      let v = set "resource" spt.resource [] in
      if not (is_empty spt.client_id)
      then set "client_id" spt.client_id v
      else if not (is_empty resource_id)
      then set "msi_res_id" resource_id v
      else v

  -- the request for a managed identity
  unfoldable pub msi_request :
      MsiType → String → ServicePrincipalToken → TokenRequest → TokenRequest
  msi_request app_service_v20170901 id spt req = record req {
    method = "GET";
    headers = set "Secret" (env.getenv "MSI_SECRET") req.headers;
  }
  msi_request cloud_shell id spt req = record req {
    headers =
        set "Content-Type" "application/x-www-form-urlencoded" (set "Metadata" "true" req.headers);
    body = env.encode (cloud_values spt id);
  }
  msi_request imds id spt req = record req {
    method = "GET";
    headers = set "Metadata" "true" req.headers;
  }
  msi_request unavailable id spt req = req

  abbrev pub is_authorization_code : Secret → Bool
  is_authorization_code s = str_eq (get_grant_type s) "authorization_code"

  -- the form's values for a token that has a refresh token; a web app must give its secret too
  abbrev pub refresh_values : ServicePrincipalToken → Values → W → (AdalError ⊎ Values) × W
  refresh_values spt u w =
      if is_authorization_code spt.secret
      then set_authentication_values env spt.secret spt u w
      else (inr u, w)

  unfoldable pub form_values : ServicePrincipalToken → String → W → (AdalError ⊎ Values) × W
  form_values spt resource w =
      let v = set "resource" resource (set "client_id" spt.client_id []) in
      if is_empty spt.token.refresh_token
      then set_authentication_values env spt.secret spt
          (set "grant_type" (get_grant_type spt.secret) v) w
      else refresh_values spt
          (set "refresh_token" spt.token.refresh_token (set "grant_type" "refresh_token" v)) w

  abbrev pub reply_of : (Reply × String × W) → String → ServicePrincipalToken → Refreshed W
  reply_of (r, left, w) url spt = take_reply url r spt w

  abbrev pub form_request : TokenRequest → Values → TokenRequest
  form_request req v = record req {
    headers = set "Content-Type" "application/x-www-form-urlencoded" req.headers;
    body = env.encode v;
    content_length = env.byte_length (env.encode v);
  }

  unfoldable pub send_form :
      TokenRequest → ServicePrincipalToken → (AdalError ⊎ Values) × W → Refreshed W
  send_form req spt (inl e, w) = (refused e, spt, w)
  send_form req spt (inr v, w) = reply_of (env.send w (form_request req v)) req.url spt

  abbrev pub imds_reply : String → Reply × Run W → ServicePrincipalToken → Refreshed W
  imds_reply url (r, s) spt = take_reply url r spt s.world

  -- by the type of the secret
  unfoldable pub request_by :
      Secret → String → TokenRequest → ServicePrincipalToken → W → Refreshed W
  request_by (msi_secret t id) resource req spt w =
      imds_reply req.url
        (retry_for_imds env (msi_request t id spt req) spt.max_msi_refresh_attempts w) spt
  request_by no_secret resource req spt w = send_form req spt (form_values spt resource w)
  request_by (token_secret s) resource req spt w = send_form req spt (form_values spt resource w)
  request_by (certificate_secret c) resource req spt w =
      send_form req spt (form_values spt resource w)
  request_by (username_password_secret u p) resource req spt w =
      send_form req spt (form_values spt resource w)
  request_by (authorization_code_secret c a r) resource req spt w =
      send_form req spt (form_values spt resource w)
  request_by (federated_secret f) resource req spt w =
      send_form req spt (form_values spt resource w)

  -- `http.NewRequest`, with the user agent
  abbrev pub new_request : String → TokenRequest
  new_request url = record {
    method = "POST";
    url = url;
    headers = set "User-Agent" env.user_agent [];
    body = "";
    content_length = 0;
  }

  abbrev pub request_when : Option String → String → ServicePrincipalToken → W → Refreshed W
  request_when (some e) resource spt w =
      (refused (failed "adal: Failed to build the refresh request. Error = '%v'" (e ∷ [])), spt, w)
  request_when none resource spt w =
      request_by spt.secret resource (new_request spt.oauth_config.token_endpoint) spt w

  unfoldable pub request_token : String → ServicePrincipalToken → W → Refreshed W
  request_token resource spt w =
      request_when (env.request_error spt.oauth_config.token_endpoint) resource spt w

  abbrev pub custom_refreshed :
      ServicePrincipalToken → (Option Token × Option String) × W → Refreshed W
  custom_refreshed spt ((t, some e), w) = (refused (passed e), spt, w)
  custom_refreshed spt ((none, none), w) = (panicked, spt, w)
  custom_refreshed spt ((some t, none), w) = set_token t spt w

  abbrev pub refresh_by : Option String → String → ServicePrincipalToken → W → Refreshed W
  refresh_by (some f) resource spt w = custom_refreshed spt (env.custom_refresh f resource w)
  refresh_by none resource spt w = request_token resource spt w

  unfoldable pub refresh_internal : String → ServicePrincipalToken → W → Refreshed W
  refresh_internal resource spt w = refresh_by spt.custom_refresh_func resource spt w

  -- `RefreshWithContext` and `RefreshExchangeWithContext`, which hold the lock
  unfoldable pub refresh : ServicePrincipalToken → W → Refreshed W
  refresh spt w = refresh_internal spt.resource spt (env.lock w)

  unfoldable pub refresh_exchange : String → ServicePrincipalToken → W → Refreshed W
  refresh_exchange resource spt w = refresh_internal resource spt (env.lock w)

  -- under the lock, the token is tested again
  unfoldable pub refresh_stale : ServicePrincipalToken → W → Refreshed W
  refresh_stale spt w =
      if will_expire_in env spt.refresh_within spt.token (env.now w)
      then refresh_internal spt.resource spt w
      else (refreshed, spt, w)

  -- `EnsureFreshWithContext`
  unfoldable pub ensure_fresh : ServicePrincipalToken → W → Refreshed W
  ensure_fresh spt w =
      if spt.auto_refresh && will_expire_in env spt.refresh_within spt.token (env.now w)
      then refresh_stale spt (env.lock w)
      else (refreshed, spt, w)
