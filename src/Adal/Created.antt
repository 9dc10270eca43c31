-- ===== src/Adal/Created.antt =====
-- autorest/adal/token.go: what the constructors of service principal tokens promise.
use go_autorest.Prelude.{
  ◌≡◌, refl, String, true, false, Option, none, some, List, inl, inr, is_empty, arith,
}
use go_autorest.Adal.Types.{
  Token, OauthConfig, is_zero_config, Secret, ServicePrincipalToken, AdalError, default_refresh,
}
use go_autorest.Adal.Create.{
  Made, checked, required, zero_token, with_token, validate_oauth_config, validate_string_param,
  new_spt_with_secret, new_spt_from_manual_token, new_spt_from_manual_token_secret, new_spt,
  new_spt_from_certificate, new_spt_from_username_password, new_spt_from_authorization_code,
  new_spt_from_federated_token_callback,
}

-- a token that passes the constructors' checks, with their defaults: its configuration is not zero,
-- its client and resource are not empty, and it refreshes by itself
pub record IsUsable (spt : ServicePrincipalToken) : Type 0 where
  pub configured : is_zero_config spt.oauth_config ≡ false
  pub has_client : is_empty spt.client_id ≡ false
  pub has_resource : is_empty spt.resource ≡ false
  pub refreshes : spt.auto_refresh ≡ true
  pub in_time : spt.refresh_within ≡ default_refresh

abbrev pub AllUsable : Made → Type 0
AllUsable (inl e) = Unit {0}
AllUsable (inr spt) = IsUsable spt

checked-AllUsable :
    (e : Option AdalError) (m : Made) → (e ≡ none → AllUsable m) → AllUsable (checked e m)
checked-AllUsable none m h = h refl
checked-AllUsable (some e) m h = tt

config_given : (oac : OauthConfig) → validate_oauth_config oac ≡ none → is_zero_config oac ≡ false
unfolding validate_oauth_config
config_given oac e = ground arith

param_given : (p name : String) → validate_string_param p name ≡ none → is_empty p ≡ false
unfolding validate_string_param
param_given p name e = ground arith

required-AllUsable :
    {A : Type 0} (a : Option A) (format : String) (f : A → Made)
    → ((x : A) → AllUsable (f x))
    → AllUsable (required a format f)
required-AllUsable none format f h = tt
required-AllUsable (some x) format f h = h x

with_secret-AllUsable :
    (oac : OauthConfig) (id resource : String) (secret : Option Secret) (callbacks : List String)
    → AllUsable (new_spt_with_secret oac id resource secret callbacks)
unfolding new_spt_with_secret
with_secret-AllUsable oac id resource secret callbacks =
    checked-AllUsable (validate_oauth_config oac) _ (λ a.
      checked-AllUsable (validate_string_param id "id") _ (λ b.
        checked-AllUsable (validate_string_param resource "resource") _ (λ c.
          required-AllUsable secret _ _ (λ s. record {
            configured = config_given oac a;
            has_client = param_given id "id" b;
            has_resource = param_given resource "resource" c;
            refreshes = refl;
            in_time = refl;
          }))))

with_token-AllUsable : (t : Token) (m : Made) → AllUsable m → AllUsable (with_token t m)
with_token-AllUsable t (inl e) h = tt
with_token-AllUsable t (inr spt) h = record {
  configured = h.configured;
  has_client = h.has_client;
  has_resource = h.has_resource;
  refreshes = h.refreshes;
  in_time = h.in_time;
}

-- The checks of the OAuth configuration, the client id and the resource that the constructors make.
checks-AllUsable :
    (oac : OauthConfig) (id resource : String) (m : Made)
    → AllUsable m
    → AllUsable (
        checked (validate_oauth_config oac) (
          checked
            (validate_string_param id "clientID")
            (checked (validate_string_param resource "resource") m)))
checks-AllUsable oac id resource m h = checked-AllUsable (validate_oauth_config oac) _ (λ _.
    checked-AllUsable (validate_string_param id "clientID") _
      (λ _. checked-AllUsable (validate_string_param resource "resource") m (λ _. h)))

manual-AllUsable :
    (oac : OauthConfig) (id resource : String) (t : Token) (callbacks : List String)
    → AllUsable (new_spt_from_manual_token oac id resource t callbacks)
unfolding new_spt_from_manual_token
manual-AllUsable oac id resource t callbacks = checks-AllUsable oac id resource _ (
    checked-AllUsable (zero_token t) _
      (λ _. with_token-AllUsable t _ (with_secret-AllUsable oac id resource _ callbacks)))

manual_secret-AllUsable :
    (oac : OauthConfig) (id resource : String) (t : Token) (s : Option Secret)
    (callbacks : List String)
    → AllUsable (new_spt_from_manual_token_secret oac id resource t s callbacks)
unfolding new_spt_from_manual_token_secret
manual_secret-AllUsable oac id resource t s callbacks = checks-AllUsable oac id resource _ (
    required-AllUsable s _ _ (λ x.
      checked-AllUsable (zero_token t) _
        (λ _. with_token-AllUsable t _ (with_secret-AllUsable oac id resource _ callbacks))))

pub secret-AllUsable :
    (oac : OauthConfig) (id s resource : String) (callbacks : List String)
    → AllUsable (new_spt oac id s resource callbacks)
unfolding new_spt
secret-AllUsable oac id s resource callbacks = checked-AllUsable (validate_oauth_config oac) _ (λ _.
    checked-AllUsable (validate_string_param id "clientID") _ (λ _.
      checked-AllUsable (validate_string_param s "secret") _ (λ _.
        checked-AllUsable (validate_string_param resource "resource") _
          (λ _. with_secret-AllUsable oac id resource _ callbacks))))

certificate-AllUsable :
    (oac : OauthConfig) (id : String) (c k : Option String) (resource : String)
    (callbacks : List String)
    → AllUsable (new_spt_from_certificate oac id c k resource callbacks)
unfolding new_spt_from_certificate
certificate-AllUsable oac id c k resource callbacks = checks-AllUsable oac id resource _ (
    required-AllUsable c _ _
      (λ x. required-AllUsable k _ _ (λ y. with_secret-AllUsable oac id resource _ callbacks)))

password-AllUsable :
    (oac : OauthConfig) (id user password resource : String) (callbacks : List String)
    → AllUsable (new_spt_from_username_password oac id user password resource callbacks)
unfolding new_spt_from_username_password
password-AllUsable oac id user password resource callbacks =
    checked-AllUsable (validate_oauth_config oac) _ (λ _.
      checked-AllUsable (validate_string_param id "clientID") _ (λ _.
        checked-AllUsable (validate_string_param user "username") _ (λ _.
          checked-AllUsable (validate_string_param password "password") _ (λ _.
            checked-AllUsable (validate_string_param resource "resource") _
              (λ _. with_secret-AllUsable oac id resource _ callbacks)))))

code-AllUsable :
    (oac : OauthConfig) (id s code uri resource : String) (callbacks : List String)
    → AllUsable (new_spt_from_authorization_code oac id s code uri resource callbacks)
unfolding new_spt_from_authorization_code
code-AllUsable oac id s code uri resource callbacks =
    checked-AllUsable (validate_oauth_config oac) _ (λ _.
      checked-AllUsable (validate_string_param id "clientID") _ (λ _.
        checked-AllUsable (validate_string_param s "clientSecret") _ (λ _.
          checked-AllUsable (validate_string_param code "authorizationCode") _ (λ _.
            checked-AllUsable (validate_string_param uri "redirectURI") _ (λ _.
              checked-AllUsable (validate_string_param resource "resource") _
                (λ _. with_secret-AllUsable oac id resource _ callbacks))))))

federated-AllUsable :
    (oac : OauthConfig) (id : String) (f : Option String) (resource : String)
    (callbacks : List String)
    → AllUsable (new_spt_from_federated_token_callback oac id f resource callbacks)
unfolding new_spt_from_federated_token_callback
federated-AllUsable oac id f resource callbacks =
    checks-AllUsable oac id resource _
      (required-AllUsable f _ _ (λ x. with_secret-AllUsable oac id resource _ callbacks))

-- Each of the constructors from a secret, a manual token, a certificate, a password, an
-- authorization code or a callback, if it returns a token, returns one whose configuration is not
-- zero, whose client id and resource are not empty, and which refreshes by itself, 5 minutes before
-- it expires.
pub created-IsUsable :
    (oac : OauthConfig) (id s u p code uri resource : String) (secret : Option Secret) (t : Token)
    (c k f : Option String) (callbacks : List String)
    → AllUsable (new_spt_with_secret oac id resource secret callbacks)
      × AllUsable (new_spt_from_manual_token oac id resource t callbacks)
      × AllUsable (new_spt_from_manual_token_secret oac id resource t secret callbacks)
      × AllUsable (new_spt oac id s resource callbacks)
      × AllUsable (new_spt_from_certificate oac id c k resource callbacks)
      × AllUsable (new_spt_from_username_password oac id u p resource callbacks)
      × AllUsable (new_spt_from_authorization_code oac id s code uri resource callbacks)
      × AllUsable (new_spt_from_federated_token_callback oac id f resource callbacks)
created-IsUsable oac id s u p code uri resource secret t c k f callbacks = (
  with_secret-AllUsable oac id resource secret callbacks,
  manual-AllUsable oac id resource t callbacks,
  manual_secret-AllUsable oac id resource t secret callbacks,
  secret-AllUsable oac id s resource callbacks,
  certificate-AllUsable oac id c k resource callbacks,
  password-AllUsable oac id u p resource callbacks,
  code-AllUsable oac id s code uri resource callbacks,
  federated-AllUsable oac id f resource callbacks,
)
