-- ===== src/Adal/Types.antt =====
-- autorest/adal/token.go: the token, the secrets and the service principal token; adal/config.go:
-- `OAuthConfig`. What the code asks of libraries, callbacks and the environment.
use go_autorest.Prelude.{
  ℕ, ◌+◌, ◌*◌, ◌^◌, ◌%◌, String, Bool, true, false, not, ◌&&◌, Option, none, some, List, [], ◌∷◌, ℤ,
  pos, negsuc, ltb, ◌⊎◌, str_eq, is_empty, if◌then◌else◌, ◌==◌,
}
use Prim.Native.Char.{code}
use go_autorest.Json.{Json}
use go_autorest.Errors.{Error, Reply}
use go_autorest.Http.{Response}
use go_autorest.Platform.{Decoded}

-- The numbers of a token are `json.Number`s, which are texts.
pub record Token : Type 0 where
  pub access_token : String
  pub refresh_token : String
  pub expires_in : String
  pub expires_on : String
  pub not_before : String
  pub resource : String
  pub token_type : String

unfoldable pub new_token : Token
new_token = record {
  access_token = "";
  refresh_token = "";
  expires_in = "0";
  expires_on = "0";
  not_before = "0";
  resource = "";
  token_type = "";
}

-- `Token.IsZero`
unfoldable pub is_zero_token : Token → Bool
is_zero_token t =
    is_empty t.access_token
    && (is_empty t.refresh_token
        && (is_empty t.expires_in
            && (is_empty t.expires_on
                && (is_empty t.not_before && (is_empty t.resource && is_empty t.token_type)))))

-- A URL is what `URL.String` prints of it; the zero URL is the empty text.
pub record OauthConfig : Type 0 where
  pub authority_endpoint : String
  pub authorize_endpoint : String
  pub token_endpoint : String
  pub device_code_endpoint : String

-- `OAuthConfig.IsZero`
unfoldable pub is_zero_config : OauthConfig → Bool
is_zero_config oac =
    is_empty oac.authority_endpoint
    && (is_empty oac.authorize_endpoint
        && (is_empty oac.token_endpoint && is_empty oac.device_code_endpoint))

pub data MsiType : Type 0 where
  unavailable app_service_v20170901 cloud_shell imds : MsiType

-- The secrets of a service principal. A certificate with its key, and a callback, is its name.
pub data Secret : Type 0 where
  no_secret : Secret
  token_secret : (client_secret : String) → Secret
  certificate_secret : (certificate : String) → Secret
  msi_secret : (msi_type : MsiType) (client_resource_id : String) → Secret
  username_password_secret : (username password : String) → Secret
  authorization_code_secret : (client_secret authorization_code redirect_uri : String) → Secret
  federated_secret : (jwt_callback : String) → Secret

-- `inner`, and the fields beside it but for the lock and the sender. A refresh function and a
-- callback is its name; the time to refresh within is in nanoseconds, and is not negative.
pub record ServicePrincipalToken : Type 0 where
  pub token : Token
  pub secret : Secret
  pub oauth_config : OauthConfig
  pub client_id : String
  pub resource : String
  pub auto_refresh : Bool
  pub refresh_within : ℕ
  pub custom_refresh_func : Option String
  pub refresh_callbacks : List String
  pub max_msi_refresh_attempts : ℤ

-- Errors that the package makes: a format with its arguments, or with the error that it reports;
-- a `tokenRefreshError`; an error passed on; a format with the error of the package that it
-- reports.
pub data AdalError : Type 0 where
  failed : (format : String) (args : List String) → AdalError
  caused : (format : String) (cause : Error) → AdalError
  refresh_failed : (format : String) (args : List String) (response : Response) → AdalError
  passed : String → AdalError
  wrapped : (format : String) (error : AdalError) → AdalError

-- `url.Values` and `http.Header`, with one value to a key
abbrev pub Values : Type 0
Values = List (String × String)

unfoldable pub set : String → String → Values → Values
set k v [] = (k, v) ∷ []
set k v ((j, x) ∷ vs) = if str_eq j k then (k, v) ∷ vs else (j, x) ∷ set k v vs

pub record TokenRequest : Type 0 where
  pub method : String
  pub url : String
  pub headers : Values
  -- what is left to read of the body
  pub body : String
  pub content_length : ℕ

-- The struct that a reply is decoded to: a token whose `expires_on` is an `interface{}`.
pub record TokenReply : Type 0 where
  pub token : Token
  pub expires_on : Json

-- What the package uses of the world and of libraries.
pub record Env (W : Type 0) : Type 0 where
  -- `spt.sender.Do`, which says what is left of the request's body
  pub send : W → TokenRequest → Reply × String × W
  -- the wait of a duration: false where the context ends first
  pub wait : W → ℕ → Bool × W
  pub ctx_err : W → Error
  -- time.Now, in nanoseconds since the Unix epoch; taking the lock may take time
  pub now : W → ℕ
  pub lock : W → W
  -- the custom refresh functions, the callbacks after a refresh, and those that give a JWT
  pub custom_refresh : String → String → W → (Option Token × Option String) × W
  pub refresh_callback : String → Token → W → Option String × W
  pub jwt_callback : String → W → (String ⊎ String) × W
  -- SignJwt, with the certificate
  pub sign_jwt : String → ServicePrincipalToken → W → (String ⊎ String) × W
  pub user_agent : String
  pub getenv : String → String
  -- http.NewRequest(http.MethodPost, url, nil): the error's message, if it fails
  pub request_error : String → Option String
  -- Values.Encode, and len
  pub encode : Values → String
  pub byte_length : String → ℕ
  pub unmarshal_token : String → Decoded TokenReply
  -- json.Number.Float64, as the nanoseconds of that many seconds, `none` where it fails
  pub nanoseconds : String → Option ℤ
  -- whether json.Number.Int64 takes a text; a JSON number cut to an int64, and an int64, as text
  pub is_int64 : String → Bool
  pub cut_number : String → String
  pub format_int : ℤ → String
  -- time.Parse with a layout: an error, or the seconds since the epoch
  pub parse_time : String → String → String ⊎ ℤ

-- `len(strings.Trim(s, " ")) == 0`
unfoldable pub is_blank : String → Bool
is_blank String.[] = true
is_blank (String.◌∷◌ c s) = code c == b' ' && is_blank s

-- A duration is an int64 of nanoseconds: the ℕ below 2 ^ 64 of its two's complement.
abbrev pub wrap : ℕ → ℕ
wrap n = n % 2 ^ 64

unfoldable pub longer : ℕ → ℕ → Bool
longer a b = ltb (wrap (b + 2 ^ 63)) (wrap (a + 2 ^ 63))

unfoldable pub seconds : ℕ → ℕ
seconds n = wrap (n * 1000000000)

-- 5 minutes, in nanoseconds
abbrev pub default_refresh : ℕ
default_refresh = 300000000000

abbrev pub default_max_msi_refresh_attempts : ℕ
default_max_msi_refresh_attempts = 5

module _ {W : Type 0} (env : Env W) where
  -- `Token.Expires`, in nanoseconds since the epoch
  unfoldable pub expires : Token → ℤ
  expires t = elim (env.nanoseconds t.expires_on) [ none ↦ negsuc 3599999999999 | some n ↦ n ]

  abbrev pub after : ℤ → ℕ → Bool
  after (pos n) m = ltb m n
  after (negsuc n) m = false

  -- `WillExpireIn`, at a time
  unfoldable pub will_expire_in : ℕ → Token → ℕ → Bool
  will_expire_in d t now = not (after (expires t) (now + d))

  unfoldable pub is_expired : Token → ℕ → Bool
  is_expired t now = will_expire_in 0 t now
