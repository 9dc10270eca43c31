-- ===== src/Adal/Secrets.antt =====
-- autorest/adal/token.go: `SetAuthenticationValues` of the secrets, and `getGrantType`.
use go_autorest.Prelude.{String, [], ◌⊎◌, inl, inr}
use go_autorest.Adal.Types.{
  Secret, no_secret, token_secret, certificate_secret, msi_secret, username_password_secret,
  authorization_code_secret, federated_secret, ServicePrincipalToken, AdalError, failed, passed,
  Values, set, Env,
}

-- `getGrantType`
unfoldable pub get_grant_type : Secret → String
get_grant_type (username_password_secret u p) = "password"
get_grant_type (authorization_code_secret c a r) = "authorization_code"
get_grant_type _ = "client_credentials"

-- the values with the client assertion, or the error of making it
abbrev assertion : (String ⊎ String) → Values → AdalError ⊎ Values
assertion (inl e) v = inl (passed e)
assertion (inr jwt) v = inr (
    set "client_assertion_type" "urn:ietf:params:oauth:client-assertion-type:jwt-bearer"
      (set "client_assertion" jwt v))

abbrev asserted : {W : Type 0} → (String ⊎ String) × W → Values → (AdalError ⊎ Values) × W
asserted (jwt, w) v = (assertion jwt v, w)

module _ {W : Type 0} (env : Env W) where
  unfoldable pub set_authentication_values :
      Secret → ServicePrincipalToken → Values → W → (AdalError ⊎ Values) × W
  set_authentication_values no_secret spt v w = (
    inl (
        failed
          "Manually created ServicePrincipalToken does not contain secret material to retrieve a new access token"
          []),
    w,
  )
  set_authentication_values (token_secret s) spt v w = (inr (set "client_secret" s v), w)
  set_authentication_values (certificate_secret c) spt v w = asserted (env.sign_jwt c spt w) v
  set_authentication_values (msi_secret t id) spt v w = (inr v, w)
  set_authentication_values (username_password_secret u p) spt v w =
      (inr (set "password" p (set "username" u v)), w)
  set_authentication_values (authorization_code_secret c a r) spt v w =
      (inr (set "redirect_uri" r (set "client_secret" c (set "code" a v))), w)
  set_authentication_values (federated_secret f) spt v w = asserted (env.jwt_callback f w) v
