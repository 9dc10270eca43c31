-- ===== src/Adal/Flow.antt =====
-- autorest/adal/devicetoken.go: the code that starts a device flow and the token that ends it.
use go_autorest.Prelude.{
  ◌≡◌, refl, sym, ap, ◌∙◌, arith, String, Bool, true, false, not, ◌&&◌, Option, none, some, [], ◌∷◌,
  ◌==◌, if◌then◌else◌,
}
use go_autorest.Http.{Response, Body, readable, broken}
use go_autorest.Errors.{Error, Reply}
use go_autorest.Platform.{Decoded, decoded, malformed}
use go_autorest.Adal.Types.{Token, OauthConfig, Values, TokenRequest, is_blank}
use go_autorest.Adal.Device.{
  DeviceCode, DeviceToken, Outcome, given, refused, DeviceEnv, form_post, read_body, read_answer,
  exchange, initiated, take_code, initiate_device_auth, completed_by, completed, take_device_token,
  check_by, token_sending_fails, code_sending_fails, code_handling_fails, token_handling_fails,
  completion_values, DeviceError, check_for_user_completion,
}

-- a reply without an error, whose body reads to its end
pub record Read (r : Reply) : Type 0 where
  pub resp : Response
  pub text : String
  pub failure : r.failure ≡ none
  pub answer : r.answer ≡ some resp
  pub body : resp.body ≡ some (readable text)

unless-given :
    {A : Type 0} (b : Bool) (e : DeviceError) (x : Outcome A) (a : A)
    → (if b then refused e else x) ≡ given a
    → (b ≡ false) × (x ≡ given a)
unless-given true e x a h = absurd (cc)
unless-given false e x a h = (refl, h)

module _ {W : Type 0} (dev : DeviceEnv W) where
  -- a response that gave a value
  record Taken {A : Type 0} (r : Reply) (k : String → Response → Outcome A) (a : A) : Type 0 where
    reply : Read r
    took : k reply.text reply.resp ≡ given a

  read_body-given :
      {A : Type 0} (handling : String) (b : Option Body) (resp : Response)
      (k : String → Response → Outcome A) (a : A)
      → resp.body ≡ b
      → read_body dev handling b resp k ≡ given a
      → Taken (record { answer = some resp; failure = none }) k a
  read_body-given handling none resp k a e h = absurd (cc)
  read_body-given handling (some (broken x)) resp k a e h = absurd (cc)
  read_body-given handling (some (readable b)) resp k a e h = record {
    reply = record { resp = resp; text = b; failure = refl; answer = refl; body = e };
    took = h;
  }

  read_answer-given :
      {A : Type 0} (sending handling : String) (e : Option Error) (o : Option Response)
      (k : String → Response → Outcome A) (a : A)
      → read_answer dev sending handling e o k ≡ given a
      → Taken (record { failure = e; answer = o }) k a
  read_answer-given sending handling (some e) o k a h = absurd (cc)
  read_answer-given sending handling none none k a h = absurd (cc)
  read_answer-given sending handling none (some resp) k a h =
      read_body-given handling resp.body resp k a refl h

  exchange-given :
      {A : Type 0} (e : Option String) (sending handling url : String) (v : Values)
      (k : String → Response → Outcome A) (w : W) (a : A)
      → (exchange dev e sending handling url v k w).0 ≡ given a
      → Taken (dev.env.send w (form_post dev url v)).0 k a
  exchange-given (some e) sending handling url v k w a h = absurd (cc)
  exchange-given none sending handling url v k w a h =
      let r = (dev.env.send w (form_post dev url v)).0 in
      read_answer-given sending handling r.failure r.answer k a h

  -- the request that starts a flow
  pub initiation_request : OauthConfig → String → String → TokenRequest
  initiation_request config client_id resource =
      form_post dev config.device_code_endpoint
        (("client_id", client_id) ∷ ("resource", resource) ∷ [])

  -- A text that gives a code: `served` is decoded from it, and the code is that with the client,
  -- the resource and the endpoints that the flow was begun with.
  pub record Serves (config : OauthConfig) (client_id resource text : String) (code : DeviceCode)
      : Type 0 where
    pub served : DeviceCode
    pub decodes : dev.unmarshal_code text ≡ decoded served
    pub same_code :
        code ≡ record served { client_id = client_id; resource = resource; oauth_config = config }

  initiated-given :
      (config : OauthConfig) (client_id resource text : String) (d : Decoded DeviceCode)
      (code : DeviceCode)
      → dev.unmarshal_code text ≡ d
      → initiated dev config client_id resource d ≡ given code
      → Serves config client_id resource text code
  initiated-given config client_id resource text (malformed e) code d h = absurd (cc)
  initiated-given config client_id resource text (decoded c) code d h = record {
    served = c;
    decodes = d;
    same_code = cc;
  }

  take_code-given :
      (config : OauthConfig) (client_id resource text : String) (resp : Response)
      (code : DeviceCode)
      → take_code dev config client_id resource text resp ≡ given code
      → (resp.status_code ≡ 200) × Serves config client_id resource text code
  unfolding take_code
  take_code-given config client_id resource text resp code h =
      let x = unless-given (not (resp.status_code == 200)) _ _ code h in
      (
        ground arith,
        initiated-given config client_id resource text (dev.unmarshal_code text) code refl
            (unless-given (is_blank text) _ _ code x.1).1,
      )

  completed_by-given :
      (e : Option String) (d : DeviceToken) (t : Token)
      → completed_by dev e d ≡ given t
      → (e ≡ none) × (d.token ≡ t)
  completed_by-given none d t h = (refl, cc)
  completed_by-given (some e) d t h = absurd (cc)

  -- A text that completes the flow with a token: not blank, and of an object that holds the token
  -- and no error.
  pub record Completes (text : String) (t : Token) : Type 0 where
    pub object : DeviceToken
    pub not_blank : is_blank text ≡ false
    pub decodes : dev.unmarshal_device_token text ≡ decoded object
    pub no_error : object.token_error.error ≡ none
    pub same_token : object.token ≡ t

  completed-given :
      (x : Decoded DeviceToken) (text : String) (t : Token)
      → is_blank text ≡ false
      → dev.unmarshal_device_token text ≡ x
      → completed dev x ≡ given t
      → Completes text t
  completed-given (malformed e) text t b d h = absurd (cc)
  completed-given (decoded o) text t b d h =
      let c = completed_by-given o.token_error.error o t h in
      record { object = o; not_blank = b; decodes = d; no_error = c.0; same_token = c.1 }

  take_device_token-given :
      (text : String) (resp : Response) (t : Token)
      → take_device_token dev text resp ≡ given t
      → Completes text t
  unfolding take_device_token
  take_device_token-given text resp t h =
      let x =
        unless-given (is_blank text) _ _ t
          (unless-given (not (resp.status_code == 200) && is_blank text) _ _ t h).1 in
      completed-given (dev.unmarshal_device_token text) text t x.0 refl x.1

  -- the request that exchanges a code for a token, by what the flow was begun with
  pub completion_request : OauthConfig → String → String → String → TokenRequest
  completion_request config client_id resource device_code = form_post dev config.token_endpoint (
      ("client_id", client_id)
      ∷ (("code", device_code) ∷ (("grant_type", "device_code") ∷ (("resource", resource) ∷ []))))

  check_by-given :
      (d : Option String) (code : DeviceCode) (w : W) (t : Token)
      → (check_by dev d code w).0 ≡ given t
      → (device_code : String) × (d ≡ some device_code)
        × Taken
            (dev.env.send w
              (completion_request code.oauth_config code.client_id code.resource device_code)).0
            (take_device_token dev)
            t
  unfolding completion_request
  check_by-given none code w t h = absurd (cc)
  check_by-given (some d) code w t h =
      let url = code.oauth_config.token_endpoint in
      (
        d,
        refl,
        exchange-given (dev.env.request_error url) token_sending_fails token_handling_fails url
            (completion_values dev code d) (take_device_token dev) w t h,
      )

  -- What stands behind a code: the request that starts a flow was answered with status 200 and a
  -- text that gives the code.
  pub record Begun (config : OauthConfig) (client_id resource : String) (w : W) (code : DeviceCode)
      : Type 0 where
    pub reply : Read (dev.env.send w (initiation_request config client_id resource)).0
    pub status : reply.resp.status_code ≡ 200
    pub serves : Serves config client_id resource reply.text code

  -- What stands behind a token: the server's reply in the world `w` served a device code, that
  -- device code was sent in the world `v` with the client, the resource and to the endpoint that
  -- the flow was begun with, and the reply completes the flow.
  pub record Exchanged (config : OauthConfig) (client_id resource : String) (w v : W)
      (code : DeviceCode) (t : Token) : Type 0 where
    pub device_code : String
    pub begun : Begun config client_id resource w code
    pub from_server : begun.serves.served.device_code ≡ some device_code
    pub reply : Read (dev.env.send v (completion_request config client_id resource device_code)).0
    pub completes : Completes reply.text t

  initiated-Exchanged :
      (config : OauthConfig) (client_id resource : String) (w v : W) (code : DeviceCode) (t : Token)
      → Begun config client_id resource w code
      → (check_for_user_completion dev code v).0 ≡ given t
      → Exchanged config client_id resource w v code t
  unfolding check_for_user_completion
  initiated-Exchanged config client_id resource w v code t begun h =
      let (d, e, x) = check_by-given code.device_code code v t h in
      let same = begun.serves.same_code in
      let y : Taken (dev.env.send v (completion_request config client_id resource d)).0
          (take_device_token dev) t =
        rw⁻¹ (ap (λ c. c.client_id) same)
          (rw⁻¹ (ap (λ c. c.resource) same) (rw⁻¹ (ap (λ c. c.oauth_config) same) x)) in
      record {
        device_code = d;
        begun = begun;
        from_server = sym (ap (λ c. c.device_code) same) ∙ e;
        reply = y.reply;
        completes = take_device_token-given y.reply.text y.reply.resp t y.took;
      }

  initiated-by :
      (e : Option String) (config : OauthConfig) (client_id resource : String) (w : W)
      (code : DeviceCode)
      → (exchange dev e code_sending_fails code_handling_fails config.device_code_endpoint
          (("client_id", client_id) ∷ ("resource", resource) ∷ [])
          (take_code dev config client_id resource)
          w).0
        ≡ given code
      → Begun config client_id resource w code
  unfolding initiation_request
  initiated-by e config client_id resource w code h =
      let x =
        exchange-given e code_sending_fails code_handling_fails config.device_code_endpoint _
          (take_code dev config client_id resource) w code h in
      let y = take_code-given config client_id resource x.reply.text x.reply.resp code x.took in
      record { reply = x.reply; status = y.0; serves = y.1 }

  -- Where `InitiateDeviceAuthWithContext` in the world `w` gives a code and
  -- `CheckForUserCompletionWithContext`, asked with it in any world `v`, gives a token: the request
  -- for a code, with the client and the resource, was answered with status 200 and a text that
  -- decodes; the check sent the device code decoded from that text to the token endpoint with the
  -- same client and resource; and the token is that of a reply that is not blank, decodes and names
  -- no error, whatever its status is.
  pub device_flow-Exchanged :
      (config : OauthConfig) (client_id resource : String) (w v : W) (code : DeviceCode) (t : Token)
      → (initiate_device_auth dev config client_id resource w).0 ≡ given code
      → (check_for_user_completion dev code v).0 ≡ given t
      → Exchanged config client_id resource w v code t
  unfolding initiate_device_auth
  device_flow-Exchanged config client_id resource w v code t begun done =
      initiated-Exchanged config client_id resource w v code t
        (initiated-by (dev.env.request_error config.device_code_endpoint) config client_id resource
          w code begun)
        done
