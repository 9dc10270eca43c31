-- ===== src/Adal/TenantScenarios.antt =====
-- autorest/adal: the tokens of two tenants.
use Prim.Native.String.{◌++◌}
use go_autorest.Prelude.{◌≤◌, refl, String, true, none, some, List, [], ◌∷◌, inr, length, pos}
use go_autorest.Adal.Types.{
  OauthConfig, is_zero_config, ServicePrincipalToken, token_secret, new_token, default_refresh,
}
use go_autorest.Adal.Create.{
  validate_oauth_config, validate_string_param, new_spt, new_spt_with_secret,
}
use go_autorest.Adal.Tenants.{
  Urls, new_oauth_config_with_api_version, new_oauth_config, api_version_of, MultiTenantToken, fill,
  new_multi_tenant_oauth_config, tokens_by, new_multi_tenant_spt,
}
use go_autorest.Adal.Tenanted.{TokenOf, All2, tenants-TokenOf}

-- a URL is its text, and a reference is resolved at its end
abbrev urls : Urls String
urls = record { parse = λ s. inr s; resolve = λ u r. inr (u ++ r) }

abbrev config_of : String → OauthConfig
config_of tenant = record {
  authority_endpoint = "e/" ++ tenant;
  authorize_endpoint = "e/" ++ (tenant ++ "/oauth2/authorize?api-version=1.0");
  token_endpoint = "e/" ++ (tenant ++ "/oauth2/token?api-version=1.0");
  device_code_endpoint = "e/" ++ (tenant ++ "/oauth2/devicecode?api-version=1.0");
}

abbrev token_of : String → ServicePrincipalToken
token_of tenant = record {
  token = new_token;
  secret = token_secret "s";
  oauth_config = config_of tenant;
  client_id = "id";
  resource = "r";
  auto_refresh = true;
  refresh_within = default_refresh;
  custom_refresh_func = none;
  refresh_callbacks = [];
  max_msi_refresh_attempts = pos 0;
}

abbrev tokens : MultiTenantToken
tokens = record { primary_token = token_of "p"; auxiliary_tokens = token_of "a" ∷ [] }

abbrev tenants : List String
tenants = "a" ∷ []

tenants-TokenOf_example :
    (1 ≤ length tenants)
    × (length tenants ≤ 3)
    × TokenOf
        (new_oauth_config_with_api_version urls "e/" "p" (some (api_version_of "")))
        "s"
        "r"
        (token_of "p")
    × All2
        (λ t token. TokenOf (new_oauth_config urls "e/" t) "s" "r" token)
        tenants
        (token_of "a" ∷ [])
unfolding new_multi_tenant_oauth_config new_oauth_config_with_api_version new_oauth_config
    api_version_of fill new_multi_tenant_spt tokens_by new_spt new_spt_with_secret
    validate_oauth_config validate_string_param is_zero_config
tenants-TokenOf_example =
    tenants-TokenOf urls "e/" "p" tenants ""
      (record { primary = config_of "p"; auxiliary = config_of "a" ∷ [] }) "id" "s" "r" tokens refl
      refl
