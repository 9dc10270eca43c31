-- ===== src/Adal/Create.antt =====
-- autorest/adal/token.go: the constructors of service principal tokens and the managed identities;
-- adal/config.go: `validateStringParam`.
use go_autorest.Prelude.{
  String, true, not, ◌&&◌, Option, none, some, List, [], pos, ◌⊎◌, inl, inr, if◌then◌else◌,
  is_empty,
}
use Prim.Native.String.{◌++◌ as ◌<>◌}
use go_autorest.Adal.Types.{
  Token, new_token, is_zero_token, OauthConfig, is_zero_config, MsiType, app_service_v20170901,
  cloud_shell, imds, Secret, no_secret, token_secret, certificate_secret, msi_secret,
  username_password_secret, authorization_code_secret, federated_secret, ServicePrincipalToken,
  AdalError, failed, passed, Values, set, default_refresh, default_max_msi_refresh_attempts,
}

-- what a constructor returns: an error or a token
abbrev pub Made : Type 0
Made = AdalError ⊎ ServicePrincipalToken

-- `if err := check; err != nil { return nil, err }`
abbrev pub checked {ℓ} : {A : Type ℓ} → Option AdalError → AdalError ⊎ A → AdalError ⊎ A
checked (some e) k = inl e
checked none k = k

unfoldable pub validate_oauth_config : OauthConfig → Option AdalError
validate_oauth_config oac =
    if is_zero_config oac
    then some (failed "parameter 'oauthConfig' cannot be zero-initialized" [])
    else none

unfoldable pub validate_string_param : String → String → Option AdalError
validate_string_param param name =
    if is_empty param
    then some (failed ("parameter '" <> (name <> "' cannot be empty")) [])
    else none

-- a nil parameter
abbrev pub required {ℓ} : {A B : Type ℓ} → Option A → String → (A → AdalError ⊎ B) → AdalError ⊎ B
required none format k = inl (failed format [])
required (some a) format k = k a

unfoldable pub new_spt_with_secret :
    OauthConfig → (id resource : String) → Option Secret → (callbacks : List String) → Made
new_spt_with_secret oac id resource secret callbacks = checked (validate_oauth_config oac) (
    checked (validate_string_param id "id") (
      checked (validate_string_param resource "resource") (
        required secret "parameter 'secret' cannot be nil" (λ s. inr (record {
          token = new_token;
          secret = s;
          oauth_config = oac;
          client_id = id;
          resource = resource;
          auto_refresh = true;
          refresh_within = default_refresh;
          custom_refresh_func = none;
          refresh_callbacks = callbacks;
          max_msi_refresh_attempts = pos 0;
        })))))

abbrev pub zero_token : Token → Option AdalError
zero_token t =
    if is_zero_token t
    then some (failed "parameter 'token' cannot be zero-initialized" [])
    else none

-- `spt.inner.Token = token`
abbrev pub with_token : Token → Made → Made
with_token t (inl e) = inl e
with_token t (inr spt) = inr (record spt { token = t })

unfoldable pub new_spt_from_manual_token :
    OauthConfig → (client_id resource : String) → Token → List String → Made
new_spt_from_manual_token oac client_id resource token callbacks =
    checked (validate_oauth_config oac) (
      checked (validate_string_param client_id "clientID") (
        checked (validate_string_param resource "resource") (
          checked (zero_token token) (
            with_token token
              (new_spt_with_secret oac client_id resource (some no_secret) callbacks)))))

unfoldable pub new_spt_from_manual_token_secret :
    OauthConfig → (client_id resource : String) → Token → Option Secret → List String → Made
new_spt_from_manual_token_secret oac client_id resource token secret callbacks =
    checked (validate_oauth_config oac) (
      checked (validate_string_param client_id "clientID") (
        checked (validate_string_param resource "resource") (
          required secret "parameter 'secret' cannot be nil" (λ s.
            checked (zero_token token)
              (with_token token (new_spt_with_secret oac client_id resource (some s) callbacks))))))

-- `NewServicePrincipalToken`
unfoldable pub new_spt : OauthConfig → (client_id secret resource : String) → List String → Made
new_spt oac client_id secret resource callbacks = checked (validate_oauth_config oac) (
    checked (validate_string_param client_id "clientID") (
      checked (validate_string_param secret "secret") (
        checked (validate_string_param resource "resource")
          (new_spt_with_secret oac client_id resource (some (token_secret secret)) callbacks))))

-- The certificate and its private key; the secret holds the certificate's name.
unfoldable pub new_spt_from_certificate :
    OauthConfig → String → (certificate private_key : Option String) → String → List String → Made
new_spt_from_certificate oac client_id certificate private_key resource callbacks =
    checked (validate_oauth_config oac) (
      checked (validate_string_param client_id "clientID") (
        checked (validate_string_param resource "resource") (
          required certificate "parameter 'certificate' cannot be nil" (λ c.
            required private_key "parameter 'privateKey' cannot be nil" (λ k.
              new_spt_with_secret oac client_id resource (some (certificate_secret c))
                callbacks)))))

unfoldable pub new_spt_from_username_password :
    OauthConfig → (client_id username password resource : String) → List String → Made
new_spt_from_username_password oac client_id username password resource callbacks =
    checked (validate_oauth_config oac) (
      checked (validate_string_param client_id "clientID") (
        checked (validate_string_param username "username") (
          checked (validate_string_param password "password") (
            checked (validate_string_param resource "resource") (
              new_spt_with_secret oac client_id resource
                (some (username_password_secret username password)) callbacks)))))

unfoldable pub new_spt_from_authorization_code :
    OauthConfig
    → (client_id client_secret authorization_code redirect_uri resource : String) → List String
    → Made
new_spt_from_authorization_code oac client_id client_secret authorization_code redirect_uri resource
      callbacks =
    checked (validate_oauth_config oac) (
      checked (validate_string_param client_id "clientID") (
        checked (validate_string_param client_secret "clientSecret") (
          checked (validate_string_param authorization_code "authorizationCode") (
            checked (validate_string_param redirect_uri "redirectURI") (
              checked (validate_string_param resource "resource") (
                new_spt_with_secret oac client_id resource
                  (some (authorization_code_secret client_secret authorization_code redirect_uri))
                  callbacks))))))

unfoldable pub new_spt_from_federated_token_callback :
    OauthConfig
    → (client_id : String) → (jwt_callback : Option String) → String
    → List String
    → Made
new_spt_from_federated_token_callback oac client_id jwt_callback resource callbacks =
    checked (validate_oauth_config oac) (
      checked (validate_string_param client_id "clientID") (
        checked (validate_string_param resource "resource") (
          required jwt_callback "parameter 'jwtCallback' cannot be empty" (λ f.
            new_spt_with_secret oac client_id resource (some (federated_secret f)) callbacks))))

-- The environment variables MSI_ENDPOINT and MSI_SECRET, and the libraries for URLs.
pub record MsiEnv : Type 0 where
  pub getenv : String → String
  -- url.Parse; the URL with another query; Values.Encode
  pub parse_url : String → String ⊎ String
  pub with_query : String → String → String
  pub encode : Values → String

abbrev pub msi_endpoint : String
msi_endpoint = "http://169.254.169.254/metadata/identity/oauth2/token"

module _ (env : MsiEnv) where
  -- `getMSIType`, whose error is always nil
  unfoldable pub get_msi_type : MsiType × String
  get_msi_type =
      let endpoint = env.getenv "MSI_ENDPOINT" in
      if is_empty endpoint
      then (imds, msi_endpoint)
      else if is_empty (env.getenv "MSI_SECRET")
      then (cloud_shell, endpoint)
      else (app_service_v20170901, endpoint)

  abbrev client_id_param : MsiType → String
  client_id_param app_service_v20170901 = "clientid"
  client_id_param _ = "client_id"

  abbrev api_version : MsiType → Values → Values
  api_version app_service_v20170901 v = set "api-version" "2017-09-01" v
  api_version imds v = set "api-version" "2018-02-01" v
  api_version _ v = v

  abbrev identity : MsiType → (assigned resource_id : String) → Values → Values
  identity t assigned resource_id v =
      if not (is_empty assigned)
      then set (client_id_param t) assigned v
      else if not (is_empty resource_id)
      then set "mi_res_id" resource_id v
      else v

  -- the endpoint with its query; that of the cloud shell has none
  unfoldable pub msi_url : MsiType → (url resource assigned resource_id : String) → String
  msi_url cloud_shell url resource assigned resource_id = url
  msi_url t url resource assigned resource_id =
      env.with_query url
        (env.encode (identity t assigned resource_id (api_version t (set "resource" resource []))))

  abbrev msi_token : MsiType → (url resource assigned resource_id : String) → List String → Made
  msi_token t url resource assigned resource_id callbacks = inr (record {
    token = new_token;
    secret = msi_secret t resource_id;
    oauth_config = record {
      authority_endpoint = "";
      authorize_endpoint = "";
      token_endpoint = msi_url t url resource assigned resource_id;
      device_code_endpoint = "";
    };
    client_id = assigned;
    resource = resource;
    auto_refresh = true;
    refresh_within = default_refresh;
    custom_refresh_func = none;
    refresh_callbacks = callbacks;
    max_msi_refresh_attempts = pos default_max_msi_refresh_attempts;
  })

  abbrev at_url : String ⊎ String → (String → Made) → Made
  at_url (inl e) k = inl (passed e)
  at_url (inr u) k = k u

  abbrev endpoint_or : String → MsiType × String → MsiType × String
  endpoint_or custom (t, endpoint) = (t, if is_empty custom then endpoint else custom)

  abbrev from_msi_type :
      MsiType × String → (resource assigned resource_id : String) → List String → Made
  from_msi_type (t, endpoint) resource assigned resource_id callbacks =
      at_url (env.parse_url endpoint) (λ u. msi_token t u resource assigned resource_id callbacks)

  -- `newServicePrincipalTokenFromMSI`
  unfoldable pub new_spt_from_msi :
      (endpoint resource assigned resource_id : String) → List String → Made
  new_spt_from_msi endpoint resource assigned resource_id callbacks =
      checked (validate_string_param resource "resource") (
        if not (is_empty assigned) && not (is_empty resource_id)
        then inl (failed "cannot specify userAssignedID and identityResourceID" [])
        else from_msi_type (endpoint_or endpoint get_msi_type) resource assigned resource_id
            callbacks)

  unfoldable pub new_spt_from_msi_with_user_assigned_id :
      (endpoint resource assigned : String) → List String → Made
  new_spt_from_msi_with_user_assigned_id endpoint resource assigned callbacks =
      checked (validate_string_param assigned "userAssignedID")
        (new_spt_from_msi endpoint resource assigned "" callbacks)

  unfoldable pub new_spt_from_msi_with_identity_resource_id :
      (endpoint resource resource_id : String) → List String → Made
  new_spt_from_msi_with_identity_resource_id endpoint resource resource_id callbacks =
      checked (validate_string_param resource_id "identityResourceID")
        (new_spt_from_msi endpoint resource "" resource_id callbacks)

  -- `ManagedIdentityOptions`: the client id and the identity's resource id
  unfoldable pub new_spt_from_managed_identity :
      String → Option (String × String) → List String → Made
  new_spt_from_managed_identity resource none callbacks =
      new_spt_from_msi "" resource "" "" callbacks
  new_spt_from_managed_identity resource (some (client_id, resource_id)) callbacks =
      new_spt_from_msi "" resource client_id resource_id callbacks
