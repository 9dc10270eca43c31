-- ===== src/Adal/Scenarios.antt =====
-- autorest/adal/token.go, autorest/adal/devicetoken.go: runs at concrete tokens and replies.
use go_autorest.Prelude.{
  ℕ, ◌+◌, ◌≡◌, refl, true, none, some, [], ◌∷◌, inl, inr, pos, is_empty, if◌then◌else◌,
}
use go_autorest.Json.{null}
use go_autorest.Http.{Response, readable}
use go_autorest.Errors.{external}
use go_autorest.Platform.{decoded}
use go_autorest.Adal.Types.{
  new_token, OauthConfig, cloud_shell, Secret, no_secret, token_secret, msi_secret,
  ServicePrincipalToken, TokenRequest, TokenReply, Env, is_blank, set, default_refresh,
}
use go_autorest.Adal.Secrets.{get_grant_type, set_authentication_values}
use go_autorest.Adal.Create.{
  new_spt_with_secret, new_spt_from_manual_token, new_spt_from_manual_token_secret, new_spt,
  new_spt_from_certificate, new_spt_from_username_password, new_spt_from_authorization_code,
  new_spt_from_federated_token_callback,
}
use go_autorest.Adal.Imds.{retry_for_imds}
use go_autorest.Adal.Refresh.{
  with_access, call_callbacks, invoke_refresh_callbacks, set_token, expires_on_of, take_ok,
  take_reply, form_values, send_form, request_by, request_token, refresh_internal,
}
use go_autorest.Adal.Attempts.{OnlyFirst, imds_body_sent_once}
use go_autorest.Adal.Refreshed.{Keeps, refresh-Keeps}
use go_autorest.Adal.Granted.{Served, Grants, refreshed-Grants}
use go_autorest.Adal.Expiring.{msi_exchange_same}
use go_autorest.Adal.Created.{AllUsable, created-IsUsable}

abbrev pub granted : TokenReply
granted = record { token = record new_token { access_token = "new" }; expires_on = null }

abbrev pub answer_with : ℕ → Response
answer_with code = record {
  status_code = code;
  header = λ k. "";
  body = some (readable "tok");
  content_length = pos 3;
  request_method = "POST";
  request_url = "token";
}

-- A server that answers with one status; the world is the time.
abbrev pub env_of : ℕ → Env ℕ
env_of code = record {
  send = λ w r. (record { answer = some (answer_with code); failure = none }, "", w + 1);
  wait = λ w d. (true, w + d);
  ctx_err = λ w. external "context canceled";
  now = λ w. w;
  lock = λ w. w;
  custom_refresh = λ f r w. ((none, some "no custom refresh"), w);
  refresh_callback = λ f t w. (none, w);
  jwt_callback = λ f w. (inr "jwt", w);
  sign_jwt = λ c spt w. (inr "jwt", w);
  user_agent = "agent";
  getenv = λ k. "";
  request_error = λ u. none;
  encode = λ vs. "form";
  byte_length = λ s. 4;
  unmarshal_token = λ s. decoded granted;
  nanoseconds = λ s. if is_empty s then none else some (pos 0);
  is_int64 = λ s. true;
  cut_number = λ s. s;
  format_int = λ n. "1";
  parse_time = λ l s. inl "no time";
}

abbrev pub config : OauthConfig
config = record {
  authority_endpoint = "authority";
  authorize_endpoint = "authorize";
  token_endpoint = "token";
  device_code_endpoint = "devicecode";
}

abbrev pub spt_of : Secret → ServicePrincipalToken
spt_of s = record {
  token = new_token;
  secret = s;
  oauth_config = config;
  client_id = "client";
  resource = "resource";
  auto_refresh = true;
  refresh_within = default_refresh;
  custom_refresh_func = none;
  refresh_callbacks = "audit" ∷ [];
  max_msi_refresh_attempts = pos 0;
}

abbrev request : TokenRequest
request = record { method = "POST"; url = "token"; headers = []; body = "form"; content_length = 4 }

imds_body_example : OnlyFirst "form" (retry_for_imds (env_of 500) request (pos 3) 0).1.sent
imds_body_example = imds_body_sent_once (env_of 500) request (pos 3) 0 (λ v r. refl)

refresh-Keeps_example :
    Keeps
      (spt_of (token_secret "s"))
      (refresh_internal (env_of 200) "resource" (spt_of (token_secret "s")) 0)
refresh-Keeps_example = refresh-Keeps (env_of 200) "resource" (spt_of (token_secret "s")) 0

abbrev refreshed_spt : ServicePrincipalToken
refreshed_spt = record (spt_of (token_secret "s")) { token = with_access granted "" }

refreshed-Grants_example :
    (resp : Response) × Served (env_of 200) resp × Grants (env_of 200) resp refreshed_spt.token
unfolding refresh_internal request_token request_by send_form form_values set_authentication_values
    get_grant_type take_reply take_ok expires_on_of set_token invoke_refresh_callbacks
    call_callbacks is_blank new_token set
refreshed-Grants_example =
    refreshed-Grants (env_of 200) "resource" (spt_of (token_secret "s")) refreshed_spt 0 1 refl refl

msi_exchange_example :
    refresh_internal (env_of 200) "one" (spt_of (msi_secret cloud_shell "")) 0
    ≡ refresh_internal (env_of 200) "other" (spt_of (msi_secret cloud_shell "")) 0
msi_exchange_example =
    msi_exchange_same (env_of 200) cloud_shell "" "one" "other" (spt_of (msi_secret cloud_shell ""))
      0 refl refl

created-IsUsable_example :
    AllUsable (new_spt_with_secret config "id" "r" (some no_secret) [])
    × AllUsable (new_spt_from_manual_token config "id" "r" new_token [])
    × AllUsable (new_spt_from_manual_token_secret config "id" "r" new_token (some no_secret) [])
    × AllUsable (new_spt config "id" "s" "r" [])
    × AllUsable (new_spt_from_certificate config "id" (some "c") (some "k") "r" [])
    × AllUsable (new_spt_from_username_password config "id" "u" "p" "r" [])
    × AllUsable (new_spt_from_authorization_code config "id" "s" "code" "uri" "r" [])
    × AllUsable (new_spt_from_federated_token_callback config "id" (some "f") "r" [])
created-IsUsable_example =
    created-IsUsable config "id" "s" "u" "p" "code" "uri" "r" (some no_secret) new_token (some "c")
      (some "k") (some "f") []
