-- ===== src/Adal/Refreshed.antt =====
-- autorest/adal/token.go: what a refresh changes, and what it takes a token from.
use go_autorest.Prelude.{
  ◌≡◌, refl, String, Option, none, some, List, [], ◌∷◌, ◌⊎◌, inl, inr, if-intro, ◌==◌,
}
use go_autorest.Http.{Response, Body, readable, broken}
use go_autorest.Errors.{Error, Reply}
use go_autorest.Platform.{Decoded, decoded, malformed}
use go_autorest.Adal.Types.{
  Token, Secret, no_secret, token_secret, certificate_secret, msi_secret, username_password_secret,
  authorization_code_secret, federated_secret, ServicePrincipalToken, AdalError, failed, Values,
  TokenRequest, TokenReply, Env, is_blank,
}
use go_autorest.Adal.Imds.{Run, retry_for_imds}
use go_autorest.Adal.Refresh.{
  refreshed, refused, panicked, Refreshed, callback_format, with_access, call_callbacks,
  called_back, next_callback, invoke_refresh_callbacks, set_token, expires_on_of, take_token,
  take_decoded, take_ok, take_body, take_answer, take_reply, form_values, send_form, form_request,
  reply_of, imds_reply, request_by, new_request, request_token, request_when, refresh_by,
  custom_refreshed, refresh_internal, msi_request,
}

-- the error of a callback after the refresh
abbrev pub OfCallback : AdalError → Type 0
OfCallback e = (cause : String) × (e ≡ failed callback_format (cause ∷ []))

-- The refresh of `spt` changes nothing but the token, and where it fails not the token either,
-- unless it was a callback that failed.
abbrev pub Keeps : {W : Type 0} → ServicePrincipalToken → Refreshed W → Type 0
Keeps spt (refreshed, t, w) = t ≡ record spt { token = t.token }
Keeps spt (refused e, t, w) = (t ≡ record spt { token = t.token }) × ((t ≡ spt) ⊎ OfCallback e)
Keeps spt (panicked, t, w) = t ≡ spt

module _ {W : Type 0} (env : Env W) where
  CallbackError : Option AdalError × W → Type 0
  CallbackError (none, w) = Unit {0}
  CallbackError (some e, w) = OfCallback e

  call_callbacks_error :
      (fs : List String) (t : Token) (w : W) → CallbackError (call_callbacks env fs t w)
  unfolding call_callbacks CallbackError
  call_callbacks_error [] t w = tt
  call_callbacks_error (f ∷ fs) t w =
      next (env.refresh_callback f t w) (call_callbacks env fs t) (call_callbacks_error fs t)
    where
      next :
          (x : Option String × W) (k : W → Option AdalError × W)
          → ((v : W) → CallbackError (k v))
          → CallbackError (next_callback env x k)
      next (none, v) k h = h v
      next (some e, v) k h = (e, refl)

  set_token-Keeps :
      (t : Token) (spt : ServicePrincipalToken) (w : W) → Keeps spt (set_token env t spt w)
  unfolding set_token invoke_refresh_callbacks CallbackError
  set_token-Keeps t spt w =
      called (call_callbacks env spt.refresh_callbacks t w)
        (call_callbacks_error spt.refresh_callbacks t w)
    where
      called :
          (x : Option AdalError × W)
          → CallbackError x
          → Keeps spt (called_back env (record spt { token = t }) x)
      called (none, v) h = refl
      called (some e, v) h = (refl, inr h)

  -- a failure that leaves all as it was
  Keeps-refused :
      (spt : ServicePrincipalToken) (e : AdalError) (w : W) → Keeps spt (refused e, spt, w)
  Keeps-refused spt e w = (refl, inl refl)

  take_decoded-Keeps :
      (d : Decoded TokenReply) (b : String) (resp : Response) (spt : ServicePrincipalToken) (w : W)
      → Keeps spt (take_decoded env d b resp spt w)
  take_decoded-Keeps (malformed e) b resp spt w = Keeps-refused spt _ w
  take_decoded-Keeps (decoded r) b resp spt w = taken (expires_on_of env r.expires_on)
    where
      taken : (x : String ⊎ String) → Keeps spt (take_token env x r resp spt w)
      taken (inl e) = Keeps-refused spt _ w
      taken (inr d) = set_token-Keeps (with_access r d) spt w

  take_ok-Keeps :
      (b : Body) (resp : Response) (spt : ServicePrincipalToken) (w : W)
      → Keeps spt (take_ok env b resp spt w)
  unfolding take_ok
  take_ok-Keeps (broken e) resp spt w = Keeps-refused spt _ w
  take_ok-Keeps (readable b) resp spt w =
      if-intro (Keeps spt) (is_blank b) (λ _. Keeps-refused spt _ w)
        (λ _. take_decoded-Keeps (env.unmarshal_token b) b resp spt w)

  take_body-Keeps :
      (b : Option Body) (url : String) (resp : Response) (spt : ServicePrincipalToken) (w : W)
      → Keeps spt (take_body env b url resp spt w)
  take_body-Keeps none url resp spt w = refl
  take_body-Keeps (some b) url resp spt w =
      if-intro (Keeps spt) (resp.status_code == 200) (λ _. take_ok-Keeps b resp spt w)
        (λ _. Keeps-refused spt _ w)

  take_answer-Keeps :
      (e : Option Error) (a : Option Response) (url : String) (spt : ServicePrincipalToken) (w : W)
      → Keeps spt (take_answer env e a url spt w)
  take_answer-Keeps (some e) a url spt w = Keeps-refused spt _ w
  take_answer-Keeps none none url spt w = Keeps-refused spt _ w
  take_answer-Keeps none (some resp) url spt w = take_body-Keeps resp.body url resp spt w

  reply_of-Keeps :
      (x : Reply × String × W) (url : String) (spt : ServicePrincipalToken)
      → Keeps spt (reply_of env x url spt)
  unfolding take_reply
  reply_of-Keeps (r, left, w) url spt = take_answer-Keeps r.failure r.answer url spt w

  imds_reply-Keeps :
      (url : String) (x : Reply × Run W) (spt : ServicePrincipalToken)
      → Keeps spt (imds_reply env url x spt)
  unfolding take_reply
  imds_reply-Keeps url (r, s) spt = take_answer-Keeps r.failure r.answer url spt s.world

  send_form-Keeps :
      (req : TokenRequest) (spt : ServicePrincipalToken) (x : (AdalError ⊎ Values) × W)
      → Keeps spt (send_form env req spt x)
  unfolding send_form
  send_form-Keeps req spt (inl e, w) = Keeps-refused spt e w
  send_form-Keeps req spt (inr v, w) =
      reply_of-Keeps (env.send w (form_request env req v)) req.url spt

  request_by-Keeps :
      (s : Secret) (resource : String) (req : TokenRequest) (spt : ServicePrincipalToken) (w : W)
      → Keeps spt (request_by env s resource req spt w)
  unfolding request_by
  request_by-Keeps (msi_secret t id) resource req spt w =
      imds_reply-Keeps req.url
        (retry_for_imds env (msi_request env t id spt req) spt.max_msi_refresh_attempts w) spt
  request_by-Keeps no_secret resource req spt w =
      send_form-Keeps req spt (form_values env spt resource w)
  request_by-Keeps (token_secret s) resource req spt w =
      send_form-Keeps req spt (form_values env spt resource w)
  request_by-Keeps (certificate_secret c) resource req spt w =
      send_form-Keeps req spt (form_values env spt resource w)
  request_by-Keeps (username_password_secret u p) resource req spt w =
      send_form-Keeps req spt (form_values env spt resource w)
  request_by-Keeps (authorization_code_secret c a r) resource req spt w =
      send_form-Keeps req spt (form_values env spt resource w)
  request_by-Keeps (federated_secret f) resource req spt w =
      send_form-Keeps req spt (form_values env spt resource w)

  request_when-Keeps :
      (e : Option String) (resource : String) (spt : ServicePrincipalToken) (w : W)
      → Keeps spt (request_when env e resource spt w)
  request_when-Keeps (some e) resource spt w = Keeps-refused spt _ w
  request_when-Keeps none resource spt w =
      request_by-Keeps spt.secret resource (new_request env spt.oauth_config.token_endpoint) spt w

  custom_refreshed-Keeps :
      (spt : ServicePrincipalToken) (x : (Option Token × Option String) × W)
      → Keeps spt (custom_refreshed env spt x)
  custom_refreshed-Keeps spt ((t, some e), w) = Keeps-refused spt _ w
  custom_refreshed-Keeps spt ((none, none), w) = refl
  custom_refreshed-Keeps spt ((some t, none), w) = set_token-Keeps t spt w

  refresh_by-Keeps :
      (f : Option String) (resource : String) (spt : ServicePrincipalToken) (w : W)
      → Keeps spt (refresh_by env f resource spt w)
  unfolding request_token
  refresh_by-Keeps (some f) resource spt w =
      custom_refreshed-Keeps spt (env.custom_refresh f resource w)
  refresh_by-Keeps none resource spt w =
      request_when-Keeps (env.request_error spt.oauth_config.token_endpoint) resource spt w

  -- A refresh, for any resource and with any secret, changes nothing of the service principal
  -- token but the token itself. If it returns an error, the token is as it was too, unless the
  -- error is that of a callback, which comes after the new token was stored; if it panics, nothing
  -- is changed.
  pub refresh-Keeps :
      (resource : String) (spt : ServicePrincipalToken) (w : W)
      → Keeps spt (refresh_internal env resource spt w)
  unfolding refresh_internal
  refresh-Keeps resource spt w = refresh_by-Keeps spt.custom_refresh_func resource spt w
