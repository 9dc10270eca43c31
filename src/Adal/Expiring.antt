-- ===== src/Adal/Expiring.antt =====
-- autorest/adal/token.go: refreshes whose outcome the caller may not expect: a token without
-- expires_on, and a managed identity asked for another resource.
use go_autorest.Prelude.{ℕ, ◌≡◌, refl, String, true, Option, none, some, arith}
use go_autorest.Json.{null}
use go_autorest.Http.{Response}
use go_autorest.Adal.Types.{
  Token, Secret, MsiType, msi_secret, ServicePrincipalToken, TokenRequest, Env, will_expire_in,
  expires,
}
use go_autorest.Adal.Refresh.{
  expires_on_of, refresh_internal, refresh_by, request_token, request_when, request_by,
}
use go_autorest.Adal.Granted.{Grants}

module _ {W : Type 0} (env : Env W) where
  -- Let `json.Number.Float64` fail on the empty text. A token that a response without expires_on
  -- grants is expired at every time, so it is refreshed again at once.
  pub undated_token_expired :
      (resp : Response) (t : Token) (g : Grants env resp t) (d now : ℕ)
      → env.nanoseconds "" ≡ none
      → g.reply.expires_on ≡ null
      → will_expire_in env d t now ≡ true
  unfolding will_expire_in expires expires_on_of
  undated_token_expired resp t g d now law absent =
      let empty : t.expires_on ≡ "" = cc in
      let unread : env.nanoseconds t.expires_on ≡ none = rw empty law in ground arith

  request_by_msi :
      (s : Secret) (kind : MsiType) (id r r' : String) (req : TokenRequest)
      (spt : ServicePrincipalToken) (w : W)
      → s ≡ msi_secret kind id
      → request_by env s r req spt w ≡ request_by env s r' req spt w
  unfolding request_by
  request_by_msi s kind id r r' req spt w e = rw e refl

  request_when_msi :
      (e : Option String) (kind : MsiType) (id r r' : String) (spt : ServicePrincipalToken) (w : W)
      → spt.secret ≡ msi_secret kind id
      → request_when env e r spt w ≡ request_when env e r' spt w
  request_when_msi (some x) kind id r r' spt w msi = refl
  request_when_msi none kind id r r' spt w msi = request_by_msi spt.secret kind id r r' _ spt w msi

  refresh_by_msi :
      (f : Option String) (kind : MsiType) (id r r' : String) (spt : ServicePrincipalToken) (w : W)
      → spt.secret ≡ msi_secret kind id
      → f ≡ none
      → refresh_by env f r spt w ≡ refresh_by env f r' spt w
  unfolding request_token
  refresh_by_msi none kind id r r' spt w msi plain =
      request_when_msi (env.request_error spt.oauth_config.token_endpoint) kind id r r' spt w msi
  refresh_by_msi (some f) kind id r r' spt w msi plain = absurd (cc)

  -- Where the secret is that of a managed identity and no custom function refreshes the token,
  -- refreshing it for one resource and for another do the same: `RefreshExchange` gets a token for
  -- the resource that the service principal token was made for.
  pub msi_exchange_same :
      (kind : MsiType) (id r r' : String) (spt : ServicePrincipalToken) (w : W)
      → spt.secret ≡ msi_secret kind id
      → spt.custom_refresh_func ≡ none
      → refresh_internal env r spt w ≡ refresh_internal env r' spt w
  unfolding refresh_internal
  msi_exchange_same kind id r r' spt w msi plain =
      refresh_by_msi spt.custom_refresh_func kind id r r' spt w msi plain
