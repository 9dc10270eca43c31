-- ===== src/Adal/Device.antt =====
-- autorest/adal/devicetoken.go: the device flow.
use go_autorest.Prelude.{
  ℕ, zero, suc, ◌+◌, ◌*◌, String, Bool, true, false, not, ◌&&◌, Option, none, some, List, [], ◌∷◌,
  if◌then◌else◌, ◌==◌, str_eq,
}
use go_autorest.Http.{Response, Body, readable, broken}
use go_autorest.Errors.{Error}
use go_autorest.Platform.{Decoded, decoded, malformed}
use go_autorest.Adal.Types.{
  Token, OauthConfig, Values, TokenRequest, Env, is_blank, wrap, longer, seconds,
}

-- Pointers are options. An int64 is the ℕ below 2 ^ 64 of its two's complement.
pub record DeviceCode : Type 0 where
  pub device_code : Option String
  pub user_code : Option String
  pub verification_url : Option String
  pub expires_in : Option ℕ
  pub interval : Option ℕ
  pub message : Option String
  pub resource : String
  pub oauth_config : OauthConfig
  pub client_id : String

pub record TokenError : Type 0 where
  pub error : Option String
  pub error_codes : List ℕ
  pub error_description : Option String
  pub timestamp : Option String
  pub trace_id : Option String

pub record DeviceToken : Type 0 where
  pub token : Token
  pub token_error : TokenError

-- The package's error values; the other errors, by what was done and the text of the cause, or
-- the error that is the cause; the error of the context.
pub data DeviceError : Type 0 where
  generic access_denied authorization_pending code_expired slow_down code_empty oauth_token_empty :
      DeviceError
  slowed_too_much : DeviceError
  reported : (what text : String) → DeviceError
  sending_failed : (what : String) (cause : Error) → DeviceError
  canceled : Error → DeviceError

-- A nil response with a nil error, a nil body and a nil pointer of the code panic.
pub data Outcome (A : Type 0) : Type 0 where
  given : A → Outcome A
  refused : DeviceError → Outcome A
  panicked : Outcome A

abbrev pub code_sending_fails : String
code_sending_fails = "Error occurred while sending request for Device Authorization Code"

abbrev pub code_handling_fails : String
code_handling_fails = "Error occurred while handling response from the Device Endpoint"

abbrev pub token_sending_fails : String
token_sending_fails = "Error occurred while sending request with device code for a token"

abbrev pub token_handling_fails : String
token_handling_fails =
    "Error occurred while handling response from the Token Endpoint (during device flow)"

abbrev pub status_not_ok : String
status_not_ok = "Error HTTP status != 200"

abbrev pub grant_type_device_code : String
grant_type_device_code = "device_code"

-- what the flow uses beside the environment
pub record DeviceEnv (W : Type 0) : Type 0 where
  pub env : Env W
  pub unmarshal_code : String → Decoded DeviceCode
  pub unmarshal_device_token : String → Decoded DeviceToken

-- the world, and the durations waited for, the latest first
pub record Polling (W : Type 0) : Type 0 where
  pub world : W
  pub waited : List ℕ

-- how the loop ends; it may run out of fuel
pub data Waited : Type 0 where
  finished : Outcome Token → Waited
  out_of_fuel : Waited

module _ {W : Type 0} (dev : DeviceEnv W) where
  abbrev pub form_post : String → Values → TokenRequest
  form_post url v = record {
    method = "POST";
    url = url;
    headers = ("Content-Type", "application/x-www-form-urlencoded") ∷ [];
    body = dev.env.encode v;
    content_length = dev.env.byte_length (dev.env.encode v);
  }

  abbrev pub read_body :
      {A : Type 0} → String → Option Body → Response → (String → Response → Outcome A) → Outcome A
  read_body handling none resp k = panicked
  read_body handling (some (broken e)) resp k = refused (reported handling e)
  read_body handling (some (readable b)) resp k = k b resp

  -- the body read to its end, with the response
  abbrev pub read_answer :
      {A : Type 0}
      → String
      → String
      → Option Error
      → Option Response
      → (String → Response → Outcome A)
      → Outcome A
  read_answer sending handling (some e) resp k = refused (sending_failed sending e)
  read_answer sending handling none none k = panicked
  read_answer sending handling none (some resp) k = read_body handling resp.body resp k

  -- `http.NewRequest`, by its error, and `sender.Do`
  abbrev pub exchange :
      {A : Type 0}
      → Option String
      → String
      → String
      → String
      → Values
      → (String → Response → Outcome A)
      → W
      → Outcome A × W
  exchange (some e) sending handling url v k w = (refused (reported sending e), w)
  exchange none sending handling url v k w =
      let sent = dev.env.send w (form_post url v) in
      (read_answer sending handling sent.0.failure sent.0.answer k, sent.2)

  abbrev pub initiated : OauthConfig → String → String → Decoded DeviceCode → Outcome DeviceCode
  initiated config client_id resource (malformed e) = refused (reported code_handling_fails e)
  initiated config client_id resource (decoded c) =
      given (record c { client_id = client_id; resource = resource; oauth_config = config })

  unfoldable pub take_code : OauthConfig → String → String → String → Response → Outcome DeviceCode
  take_code config client_id resource b resp =
      if not (resp.status_code == 200)
      then refused (reported code_handling_fails status_not_ok)
      else if is_blank b
      then refused code_empty
      else initiated config client_id resource (dev.unmarshal_code b)

  -- `InitiateDeviceAuthWithContext`
  unfoldable pub initiate_device_auth : OauthConfig → String → String → W → Outcome DeviceCode × W
  initiate_device_auth config client_id resource w =
      exchange (dev.env.request_error config.device_code_endpoint) code_sending_fails
        code_handling_fails config.device_code_endpoint
        (("client_id", client_id) ∷ ("resource", resource) ∷ [])
        (take_code config client_id resource) w

  -- the `switch` on the error of a reply
  unfoldable pub token_error_of : String → Option String → DeviceError
  token_error_of e description =
      if str_eq e "authorization_pending"
      then authorization_pending
      else if str_eq e "slow_down"
      then slow_down
      else if str_eq e "access_denied"
      then access_denied
      else if str_eq e "code_expired"
      then code_expired
      else elim description [ some d ↦ reported e d | none ↦ generic ]

  abbrev pub completed_by : Option String → DeviceToken → Outcome Token
  completed_by none t = given t.token
  completed_by (some e) t = refused (token_error_of e t.token_error.error_description)

  abbrev pub completed : Decoded DeviceToken → Outcome Token
  completed (malformed e) = refused (reported token_handling_fails e)
  completed (decoded t) = completed_by t.token_error.error t

  unfoldable pub take_device_token : String → Response → Outcome Token
  take_device_token b resp =
      if not (resp.status_code == 200) && is_blank b
      then refused (reported token_handling_fails status_not_ok)
      else if is_blank b
      then refused oauth_token_empty
      else completed (dev.unmarshal_device_token b)

  abbrev pub completion_values : DeviceCode → String → Values
  completion_values code device_code =
      ("client_id", code.client_id)
      ∷ (("code", device_code)
          ∷ (("grant_type", grant_type_device_code) ∷ (("resource", code.resource) ∷ [])))

  abbrev pub check_by : Option String → DeviceCode → W → Outcome Token × W
  check_by none code w = (panicked, w)
  check_by (some d) code w =
      let url = code.oauth_config.token_endpoint in
      exchange (dev.env.request_error url) token_sending_fails token_handling_fails url
        (completion_values code d) take_device_token w

  -- `CheckForUserCompletionWithContext`
  unfoldable pub check_for_user_completion : DeviceCode → W → Outcome Token × W
  check_for_user_completion code w = check_by code.device_code code w

  abbrev pub after_pause :
      ℕ → (Polling W → Waited × Polling W) → Polling W → Bool × W → Waited × Polling W
  after_pause d more s (true, w) = more (record { world = w; waited = d ∷ s.waited })
  after_pause d more s (false, w) = (
    finished (refused (canceled (dev.env.ctx_err w))),
    record { world = w; waited = d ∷ s.waited },
  )

  abbrev pub pause_for :
      ℕ → ℕ → (ℕ → Polling W → Waited × Polling W) → Polling W → Waited × Polling W
  pause_for interval d more s =
      if longer d (wrap (interval * 3))
      then (finished (refused slowed_too_much), s)
      else after_pause d (more d) s (dev.env.wait s.world d)

  -- after a check, with the duration to wait for
  abbrev pub after_check :
      ℕ → ℕ → (ℕ → Polling W → Waited × Polling W) → List ℕ → Outcome Token × W → Waited × Polling W
  after_check interval d more ws (refused slow_down, w) =
      pause_for interval (wrap (d + d)) more (record { world = w; waited = ws })
  after_check interval d more ws (refused authorization_pending, w) =
      pause_for interval d more (record { world = w; waited = ws })
  after_check interval d more ws (o, w) = (finished o, record { world = w; waited = ws })

  -- the `for` loop
  unfoldable pub poll_device : ℕ → DeviceCode → ℕ → ℕ → Polling W → Waited × Polling W
  poll_device zero code interval d s = (out_of_fuel, s)
  poll_device (suc k) code interval d s =
      after_check interval d (poll_device k code interval) s.waited
        (check_for_user_completion code s.world)

  abbrev pub wait_by : Option ℕ → ℕ → DeviceCode → W → Waited × Polling W
  wait_by none fuel code w = (finished panicked, record { world = w; waited = [] })
  wait_by (some i) fuel code w =
      poll_device fuel code (seconds i) (seconds i) (record { world = w; waited = [] })

  -- `WaitForUserCompletionWithContext`
  unfoldable pub wait_for_user_completion : ℕ → DeviceCode → W → Waited × Polling W
  wait_for_user_completion fuel code w = wait_by code.interval fuel code w
