-- ===== src/Adal/Tenants.antt =====
-- autorest/adal/config.go: the endpoints of a tenant and of several; adal/token.go: the tokens of
-- several tenants.
use go_autorest.Prelude.{
  String, ◌||◌, Option, none, some, List, [], ◌∷◌, ◌⊎◌, inl, inr, is_empty, ltb, ◌==◌, length,
  if◌then◌else◌,
}
use Prim.Native.String.{◌++◌ as ◌<>◌}
use go_autorest.Adal.Types.{
  OauthConfig, ServicePrincipalToken, certificate_secret, AdalError, failed, passed, wrapped,
}
use go_autorest.Adal.Create.{checked, required, validate_string_param, new_spt, new_spt_with_secret}

-- `url.Parse`, and `URL.Parse` in the context of a URL, printed; an error is its message
pub record Urls (Url : Type 0) : Type 0 where
  pub parse : String → String ⊎ Url
  pub resolve : Url → String → String ⊎ String

abbrev pub next_url {ℓ} :
    {A : Type ℓ} {B : Type 0} → String ⊎ B → (B → AdalError ⊎ A) → AdalError ⊎ A
next_url (inl e) k = inl (passed e)
next_url (inr u) k = k u

abbrev pub version_param : Option String → String
version_param none = ""
version_param (some v) = "?api-version=" <> v

abbrev pub check_version : Option String → Option AdalError
check_version none = none
check_version (some v) = validate_string_param v "apiVersion"

-- `activeDirectoryEndpointTemplate`
abbrev pub endpoint_of : (tenant operation api : String) → String
endpoint_of tenant operation api = tenant <> ("/oauth2/" <> (operation <> api))

module _ {Url : Type 0} (urls : Urls Url) where
  unfoldable pub new_oauth_config_with_api_version :
      (endpoint tenant : String) → Option String → AdalError ⊎ OauthConfig
  new_oauth_config_with_api_version endpoint tenant version =
      let api = version_param version in
      checked (validate_string_param endpoint "activeDirectoryEndpoint") (
        checked (check_version version) (
          next_url (urls.parse endpoint) (λ u. next_url (urls.resolve u tenant) (λ authority.
            next_url (urls.resolve u (endpoint_of tenant "authorize" api)) (λ authorize.
              next_url (urls.resolve u (endpoint_of tenant "token" api)) (λ token.
                next_url (urls.resolve u (endpoint_of tenant "devicecode" api)) (λ code.
                  inr (record {
                    authority_endpoint = authority;
                    authorize_endpoint = authorize;
                    token_endpoint = token;
                    device_code_endpoint = code;
                  }))))))))

  unfoldable pub new_oauth_config : (endpoint tenant : String) → AdalError ⊎ OauthConfig
  new_oauth_config endpoint tenant = new_oauth_config_with_api_version endpoint tenant (some "1.0")

-- `OAuthOptions.apiVersion`
unfoldable pub api_version_of : String → String
api_version_of v = if is_empty v then "1.0" else "?api-version=" <> v

-- a slice with the primary tenant's configuration first
pub record MultiTenantConfig : Type 0 where
  pub primary : OauthConfig
  pub auxiliary : List OauthConfig

pub record MultiTenantToken : Type 0 where
  pub primary_token : ServicePrincipalToken
  pub auxiliary_tokens : List ServicePrincipalToken

abbrev pub after : {A B : Type 0} → String → AdalError ⊎ A → (A → AdalError ⊎ B) → AdalError ⊎ B
after format (inl e) k = inl (wrapped format e)
after format (inr a) k = k a

abbrev pub then_rest : {B : Type 0} → B → AdalError ⊎ List B → AdalError ⊎ List B
then_rest y (inl e) = inl e
then_rest y (inr ys) = inr (y ∷ ys)

-- a loop that fills a slice, and returns at the first error
unfoldable pub fill :
    {A B : Type 0} → (A → String) → (A → AdalError ⊎ B) → List A → AdalError ⊎ List B
fill format f [] = inr []
fill format f (x ∷ xs) =
    let rest = fill format f xs in after (format x) (f x) (λ y. then_rest y rest)

module _ {Url : Type 0} (urls : Urls Url) where
  abbrev pub with_auxiliary :
      OauthConfig → AdalError ⊎ List OauthConfig → AdalError ⊎ MultiTenantConfig
  with_auxiliary c (inl e) = inl e
  with_auxiliary c (inr cs) = inr (record { primary = c; auxiliary = cs })

  unfoldable pub new_multi_tenant_oauth_config :
      (endpoint primary : String)
      → List String
      → (api_version : String) → AdalError ⊎ MultiTenantConfig
  new_multi_tenant_oauth_config endpoint primary tenants version =
      if length tenants == 0 || ltb 3 (length tenants)
      then inl (failed "must specify one to three auxiliary tenants" [])
      else after "failed to create OAuthConfig for primary tenant: %v"
          (new_oauth_config_with_api_version urls endpoint primary (some (api_version_of version)))
          (λ c. with_auxiliary c (
            fill (λ t. "failed to create OAuthConfig for tenant '" <> (t <> "': %v"))
              (new_oauth_config urls endpoint) tenants))

abbrev pub with_tokens :
    ServicePrincipalToken → AdalError ⊎ List ServicePrincipalToken → AdalError ⊎ MultiTenantToken
with_tokens t (inl e) = inl e
with_tokens t (inr ts) = inr (record { primary_token = t; auxiliary_tokens = ts })

-- a token for each tenant, the primary one first
unfoldable pub tokens_by :
    (OauthConfig → AdalError ⊎ ServicePrincipalToken)
    → MultiTenantConfig
    → AdalError ⊎ MultiTenantToken
tokens_by make cfg = after "failed to create SPT for primary tenant: %v" (make cfg.primary) (λ t.
    with_tokens t (fill (λ c. "failed to create SPT for auxiliary tenant: %v") make cfg.auxiliary))

unfoldable pub new_multi_tenant_spt :
    MultiTenantConfig → (client_id secret resource : String) → AdalError ⊎ MultiTenantToken
new_multi_tenant_spt cfg client_id secret resource =
    checked (validate_string_param client_id "clientID") (
      checked (validate_string_param secret "secret") (
        checked (validate_string_param resource "resource")
          (tokens_by (λ c. new_spt c client_id secret resource []) cfg)))

unfoldable pub new_multi_tenant_spt_from_certificate :
    MultiTenantConfig
    → (client_id : String) → (certificate private_key : Option String) → (resource : String)
    → AdalError ⊎ MultiTenantToken
new_multi_tenant_spt_from_certificate cfg client_id certificate private_key resource =
    checked (validate_string_param client_id "clientID") (
      checked (validate_string_param resource "resource") (
        required certificate "parameter 'certificate' cannot be nil" (λ c.
          required private_key "parameter 'privateKey' cannot be nil" (λ k.
            tokens_by
              (λ oac. new_spt_with_secret oac client_id resource (some (certificate_secret c)) [])
              cfg))))
