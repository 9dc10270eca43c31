-- ===== src/Adal/Granted.antt =====
-- autorest/adal/token.go: the replies that a refresh takes its token from.
use go_autorest.Prelude.{
  ℕ, zero, suc, ◌≡◌, refl, subst, String, Bool, true, false, Option, none, some, [], ◌∷◌, ◌⊎◌, inl,
  inr, if-intro, ◌==◌, arith,
}
use go_autorest.Http.{Response, Body, readable, broken}
use go_autorest.Errors.{Error, Reply}
use go_autorest.Platform.{Decoded, decoded, malformed}
use go_autorest.Adal.Types.{
  Token, Secret, no_secret, token_secret, certificate_secret, msi_secret, username_password_secret,
  authorization_code_secret, federated_secret, ServicePrincipalToken, AdalError, Values,
  TokenRequest, TokenReply, Env, is_blank,
}
use go_autorest.Adal.Imds.{
  Run, no_reply, accepts, send_once, after_delay, attempt_imds, attempts_of, retry_for_imds,
  next_delay,
}
use go_autorest.Adal.Refresh.{
  refreshed, refused, panicked, Refreshed, with_access, call_callbacks, called_back, set_token,
  invoke_refresh_callbacks, expires_on_of, take_token, take_decoded, take_ok, take_body,
  take_answer, take_reply, form_values, form_request, send_form, msi_request, request_by,
  request_when, new_request, request_token, refresh_by, refresh_internal,
}

module _ {W : Type 0} (env : Env W) where
  -- The response is one that the sender gave, without an error.
  pub record Served (resp : Response) : Type 0 where
    pub world : W
    pub request : TokenRequest
    pub answered : (env.send world request).0.answer ≡ some resp
    pub no_error : (env.send world request).0.failure ≡ none

  -- What a response must be for a refresh to take the token from it.
  pub record Grants (resp : Response) (t : Token) : Type 0 where
    pub status_ok : resp.status_code ≡ 200
    pub text : String
    pub reads : resp.body ≡ some (readable text)
    pub not_blank : is_blank text ≡ false
    pub reply : TokenReply
    pub decodes : env.unmarshal_token text ≡ decoded reply
    pub expiry : String
    pub dated : expires_on_of env reply.expires_on ≡ inr expiry
    pub taken : t ≡ with_access reply expiry

  abbrev Takes : Refreshed W → Type 0
  Takes (refreshed, t, w) = (resp : Response) × Served resp × Grants resp t.token
  Takes (refused e, t, w) = Unit {0}
  Takes (panicked, t, w) = Unit {0}

  -- where a refresh succeeds, what it leaves satisfies P
  abbrev Leaves : (Token → Type 0) → Refreshed W → Type 0
  Leaves P (refreshed, t, w) = P t.token
  Leaves P (refused e, t, w) = Unit {0}
  Leaves P (panicked, t, w) = Unit {0}

  set_token-Leaves :
      (P : Token → Type 0) (t : Token) (spt : ServicePrincipalToken) (w : W)
      → P t
      → Leaves P (set_token env t spt w)
  unfolding set_token invoke_refresh_callbacks
  set_token-Leaves P t spt w h = called (call_callbacks env spt.refresh_callbacks t w)
    where
      called : (x : Option AdalError × W) → Leaves P (called_back env (record spt { token = t }) x)
      called (none, v) = h
      called (some e, v) = tt

  take_token-Leaves :
      (x : String ⊎ String) (r : TokenReply) (resp : Response) (spt : ServicePrincipalToken) (w : W)
      (text : String)
      → resp.status_code ≡ 200
      → resp.body ≡ some (readable text)
      → is_blank text ≡ false
      → env.unmarshal_token text ≡ decoded r
      → expires_on_of env r.expires_on ≡ x
      → Leaves (Grants resp) (take_token env x r resp spt w)
  take_token-Leaves (inl e) r resp spt w text code body blank dec dated = tt
  take_token-Leaves (inr d) r resp spt w text code body blank dec dated =
      set_token-Leaves (Grants resp) (with_access r d) spt w (record {
        status_ok = code;
        text = text;
        reads = body;
        not_blank = blank;
        reply = r;
        decodes = dec;
        expiry = d;
        dated = dated;
        taken = refl;
      })

  take_decoded-Leaves :
      (d : Decoded TokenReply) (resp : Response) (spt : ServicePrincipalToken) (w : W)
      (text : String)
      → resp.status_code ≡ 200
      → resp.body ≡ some (readable text)
      → is_blank text ≡ false
      → env.unmarshal_token text ≡ d
      → Leaves (Grants resp) (take_decoded env d text resp spt w)
  take_decoded-Leaves (malformed e) resp spt w text code body blank dec = tt
  take_decoded-Leaves (decoded r) resp spt w text code body blank dec =
      take_token-Leaves (expires_on_of env r.expires_on) r resp spt w text code body blank dec refl

  take_ok-Leaves :
      (b : Body) (resp : Response) (spt : ServicePrincipalToken) (w : W)
      → resp.status_code ≡ 200
      → resp.body ≡ some b
      → Leaves (Grants resp) (take_ok env b resp spt w)
  unfolding take_ok
  take_ok-Leaves (broken e) resp spt w code body = tt
  take_ok-Leaves (readable b) resp spt w code body =
      if-intro (Leaves (Grants resp)) (is_blank b) (λ _. tt)
        (λ blank. take_decoded-Leaves (env.unmarshal_token b) resp spt w b code body blank refl)

  -- A reply leaves a token only if it is a response that grants the token.
  take_body-Leaves :
      (b : Option Body) (url : String) (resp : Response) (spt : ServicePrincipalToken) (w : W)
      → resp.body ≡ b
      → Leaves (Grants resp) (take_body env b url resp spt w)
  take_body-Leaves none url resp spt w body = tt
  take_body-Leaves (some b) url resp spt w body =
      if-intro (Leaves (Grants resp)) (resp.status_code == 200)
        (λ code. take_ok-Leaves b resp spt w (ground arith) body) (λ _. tt)

  Takes-of_Leaves :
      (resp : Response) (x : Refreshed W) → Served resp → Leaves (Grants resp) x → Takes x
  Takes-of_Leaves resp (refreshed, t, w) s g = (resp, s, g)
  Takes-of_Leaves resp (refused e, t, w) s g = tt
  Takes-of_Leaves resp (panicked, t, w) s g = tt

  -- a response in the reply is one that the sender gave
  abbrev Genuine : Reply → Type 0
  Genuine r = (resp : Response) → r.failure ≡ none → r.answer ≡ some resp → Served resp

  take_answer-Takes :
      (e : Option Error) (a : Option Response) (url : String) (spt : ServicePrincipalToken) (w : W)
      → ((resp : Response) → e ≡ none → a ≡ some resp → Served resp)
      → Takes (take_answer env e a url spt w)
  take_answer-Takes (some e) a url spt w g = tt
  take_answer-Takes none none url spt w g = tt
  take_answer-Takes none (some resp) url spt w g =
      Takes-of_Leaves resp (take_body env resp.body url resp spt w) (g resp refl refl)
        (take_body-Leaves resp.body url resp spt w refl)

  sent-Genuine : (w : W) (req : TokenRequest) → Genuine (env.send w req).0
  sent-Genuine w req resp e a = record { world = w; request = req; answered = a; no_error = e }

  after_delay-Genuine :
      (d : ℕ) (next : Reply → Run W → Reply × Run W) (r : Reply) (s : Run W) (x : Bool × W)
      → ((w : W) → Genuine (next r (record s { world = w; waited = d ∷ s.waited })).0)
      → Genuine (after_delay env d next r s x).0
  after_delay-Genuine d next r s (true, w) h = h w
  after_delay-Genuine d next r s (false, w) h = λ resp e a. cc

  attempts-Genuine :
      (k made delay : ℕ) (r : Reply) (s : Run W)
      → Genuine r
      → Genuine (attempt_imds env k made delay r s).0
  unfolding attempt_imds send_once
  attempts-Genuine zero made delay r s h = h
  attempts-Genuine (suc k) made delay r s h =
      let d = next_delay (suc made) delay in
      let q = (send_once env s).0 in
      let t = (send_once env s).1 in
      if-intro (λ (x : Reply × Run W). Genuine x.0) (accepts q)
        (λ _. sent-Genuine s.world s.request)
        (λ _.
          after_delay-Genuine d (attempt_imds env k (suc made) d) q t (env.wait t.world d)
            (λ w. attempts-Genuine k (suc made) d q _ (sent-Genuine s.world s.request)))

  send_form-Takes :
      (req : TokenRequest) (spt : ServicePrincipalToken) (x : (AdalError ⊎ Values) × W)
      → Takes (send_form env req spt x)
  unfolding send_form take_reply
  send_form-Takes req spt (inl e, w) = tt
  send_form-Takes req spt (inr v, w) =
      let r = (env.send w (form_request env req v)).0 in
      take_answer-Takes r.failure r.answer req.url spt (env.send w (form_request env req v)).2
        (sent-Genuine w (form_request env req v))

  request_by-Takes :
      (s : Secret) (resource : String) (req : TokenRequest) (spt : ServicePrincipalToken) (w : W)
      → Takes (request_by env s resource req spt w)
  unfolding request_by take_reply retry_for_imds
  request_by-Takes (msi_secret t id) resource req spt w =
      let n = attempts_of spt.max_msi_refresh_attempts in
      let begun : Run W = record {
        request = msi_request env t id spt req;
        world = w;
        sent = [];
        waited = [];
      } in
      let x = attempt_imds env n 0 0 no_reply begun in
      take_answer-Takes x.0.failure x.0.answer req.url spt x.1.world
        (attempts-Genuine n 0 0 no_reply begun (λ resp e a. cc))
  request_by-Takes no_secret resource req spt w =
      send_form-Takes req spt (form_values env spt resource w)
  request_by-Takes (token_secret s) resource req spt w =
      send_form-Takes req spt (form_values env spt resource w)
  request_by-Takes (certificate_secret c) resource req spt w =
      send_form-Takes req spt (form_values env spt resource w)
  request_by-Takes (username_password_secret u p) resource req spt w =
      send_form-Takes req spt (form_values env spt resource w)
  request_by-Takes (authorization_code_secret c a r) resource req spt w =
      send_form-Takes req spt (form_values env spt resource w)
  request_by-Takes (federated_secret f) resource req spt w =
      send_form-Takes req spt (form_values env spt resource w)

  request_when-Takes :
      (e : Option String) (resource : String) (spt : ServicePrincipalToken) (w : W)
      → Takes (request_when env e resource spt w)
  request_when-Takes (some e) resource spt w = tt
  request_when-Takes none resource spt w =
      request_by-Takes spt.secret resource (new_request env spt.oauth_config.token_endpoint) spt w

  request_token-Takes :
      (resource : String) (spt : ServicePrincipalToken) (w : W)
      → Takes (request_token env resource spt w)
  unfolding request_token
  request_token-Takes resource spt w =
      request_when-Takes (env.request_error spt.oauth_config.token_endpoint) resource spt w

  refresh_by-Takes :
      (f : Option String) (resource : String) (spt : ServicePrincipalToken) (w : W)
      → f ≡ none
      → Takes (refresh_by env f resource spt w)
  refresh_by-Takes none resource spt w plain = request_token-Takes resource spt w
  refresh_by-Takes (some f) resource spt w plain = absurd (cc)

  -- Where no custom function refreshes the token and a refresh succeeds, the new token is that of a
  -- response which the sender gave without an error: its status is 200, its body reads to a text
  -- that is not blank and decodes, and its expiry, if it has one, is understood.
  pub refreshed-Grants :
      (resource : String) (spt t : ServicePrincipalToken) (w v : W)
      → spt.custom_refresh_func ≡ none
      → refresh_internal env resource spt w ≡ (refreshed, t, v)
      → (resp : Response) × Served resp × Grants resp t.token
  unfolding refresh_internal
  refreshed-Grants resource spt t w v plain e =
      subst Takes e (refresh_by-Takes spt.custom_refresh_func resource spt w plain)
