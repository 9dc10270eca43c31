-- ===== src/Clients/Authorizers.antt =====
-- autorest/authorization.go and autorest/authorization_sas.go: authorizers by keys, by a shared
-- access signature, by the tokens of several tenants, and by a callback on a bearer challenge.
use Prim.Native.String.{◌++◌}
use go_autorest.Prelude.{
  ℕ, zero, suc, String, Bool, not, ◌&&◌, ◌||◌, Option, none, some, List, [], ◌∷◌, ◌⊎◌, inl, inr,
  ◌==◌, if◌then◌else◌, is_empty, str_eq,
}
use go_autorest.Http.{Response}
use go_autorest.Errors.{Error, external, original, new_error_with_error}
use go_autorest.Result.{Result, ok, err, panic}
use go_autorest.Senders.{Url}
use go_autorest.Preparers.{Preparer, PrepareDecorator, decorate_preparer, prepare}
use go_autorest.Preparers.Text.{contains, split_on, trim}
use go_autorest.SharedKey.Sorting.{has_prefix, join}
use go_autorest.Preparers.Outgoing.{
  Outgoing, Value, str, Mapped, then_prepared, with_nothing, with_header, with_headers,
}
use go_autorest.Preparers.Queries.{QueryLibrary, with_query_parameters}

-- `NullAuthorizer`
unfoldable pub null_authorizer : PrepareDecorator Outgoing
unfolding with_nothing
null_authorizer = with_nothing

-- http.CanonicalHeaderKey, and the queries of URLs
module _ (canonical : String → String) (queries : QueryLibrary) where
  -- `APIKeyAuthorizer`
  unfoldable pub api_key_authorizer : Mapped Value → Mapped Value → PrepareDecorator Outgoing
  unfolding decorate_preparer
  api_key_authorizer headers query_parameters p =
      decorate_preparer p
        (with_headers canonical headers ∷ with_query_parameters queries query_parameters ∷ [])

  -- `CognitiveServicesAuthorizer`
  unfoldable pub cognitive_services_authorizer : String → PrepareDecorator Outgoing
  unfolding api_key_authorizer
  cognitive_services_authorizer key =
      api_key_authorizer
        (("Ocp-Apim-Subscription-Key", str key) ∷ ("X-BingApis-SDK-Client", str "Go-SDK") ∷ []) []

  -- `EventGridKeyAuthorizer`
  unfoldable pub event_grid_key_authorizer : String → PrepareDecorator Outgoing
  unfolding api_key_authorizer
  event_grid_key_authorizer topic_key = api_key_authorizer (("aeg-sas-key", str topic_key) ∷ []) []

  -- `BasicAuthorizer`; `base64` is StdEncoding.EncodeToString
  unfoldable pub basic_authorizer : (String → String) → String → String → PrepareDecorator Outgoing
  unfolding api_key_authorizer
  basic_authorizer base64 user_name password =
      api_key_authorizer
        (("Authorization", str ("Basic " ++ base64 (user_name ++ (":" ++ password)))) ∷ []) []

-- `NewSASTokenAuthorizer`: an error, or the token; strings.TrimSpace
unfoldable pub new_sas_token : (String → String) → String → String ⊎ String
new_sas_token trim_space (String.[]) = inl "sasToken cannot be empty"
new_sas_token trim_space (String.◌∷◌ c s) =
    if is_empty (trim_space (String.◌∷◌ c s))
    then inl "sasToken cannot be empty"
    else if has_prefix (String.◌∷◌ c s) "?"
    then inr s
    else inr (String.◌∷◌ c s)

-- the query with the token
unfoldable pub with_token : String → String → String
with_token token query =
    if is_empty query
    then token
    else if not (contains query token)
    then query ++ ("&" ++ token)
    else query

-- a nil URL panics
abbrev pub signed_at : String → Option Url → Preparer Outgoing
signed_at token none r = panic
signed_at token (some u) r =
    prepare (some (record r { url = some (record u { raw_query = with_token token u.raw_query }) }))
      []

-- `SASTokenAuthorizer`
unfoldable pub sas_authorizer : String → PrepareDecorator Outgoing
sas_authorizer token p r = then_prepared (p r) (λ r'. signed_at token r'.url r')

-- What an authorizer uses of the tokens of several tenants: the refresh, with its error and the
-- response of a `TokenRefreshError`, and the tokens.
pub record Tenants (W : Type 0) : Type 0 where
  pub ensure_fresh : W → Option (Error × Option Response) × W
  pub primary : W → String
  pub auxiliary : W → List String

abbrev pub bearer : String → String
bearer token = "Bearer " ++ token

abbrev pub bearers : List String → List String
bearers [] = []
bearers (t ∷ ts) = bearer t ∷ bearers ts

-- http.CanonicalHeaderKey, and the URL as `%s` prints it
module _ {W : Type 0} (canonical : String → String) (print_url : Option Url → String)
    (tenants : Tenants W) where
  abbrev pub fresh : Outgoing → Option (Error × Option Response) × W → Result Outgoing × W
  fresh r (some (e, resp), w) = (
    err (
        new_error_with_error (original e) "azure.multiTenantSPTAuthorizer" "WithAuthorization" resp
          "Failed to refresh one or more Tokens for request to %s" (print_url r.url ∷ [])),
    w,
  )
  fresh r (none, w) = (
    then_prepared
        (prepare (some r) (with_header canonical "Authorization" (bearer (tenants.primary w)) ∷ []))
        (λ r'. prepare (some r') (
          with_header canonical "x-ms-authorization-auxiliary"
            (join (bearers (tenants.auxiliary w)) ", ")
          ∷ [])),
    w,
  )

  abbrev pub refreshed : Result Outgoing → W → Result Outgoing × W
  refreshed (ok r) w = fresh r (tenants.ensure_fresh w)
  refreshed (err e) w = (err e, w)
  refreshed panic w = (panic, w)

  -- `MultiTenantBearerAuthorizer`, over tokens that are refreshed with a context
  unfoldable pub multi_tenant_authorizer : Preparer Outgoing → Outgoing → W → Result Outgoing × W
  multi_tenant_authorizer p r w = refreshed (p r) w

-- `hasBearerChallenge`, of the WWW-Authenticate header
unfoldable pub has_bearer_challenge : String → Bool
has_bearer_challenge header = not (is_empty header) && contains header "Bearer"

-- The challenge's values by their keys, an error, or a panic.
pub data Challenge : Type 0 where
  challenged : Mapped String → Challenge
  malformed : String → Challenge
  challenge_panics : Challenge

-- `s[n:]`, which panics where the text is shorter
abbrev pub drop_text : ℕ → String → Option String
drop_text zero s = some s
drop_text (suc n) String.[] = none
drop_text (suc n) (String.◌∷◌ c s) = drop_text n s

-- the last value that is set for a key
unfoldable pub value_of : String → Mapped String → String
value_of k [] = ""
value_of k ((j, v) ∷ m) = if str_eq j k then v else value_of k m

-- strings.TrimSpace, and the path of url.Parse, or its error
module _ (trim_space : String → String) (path_of : String → String ⊎ String) where
  abbrev pub tenant_of : Option String → Mapped String → Challenge
  tenant_of none m = challenge_panics
  tenant_of (some tenant) m = challenged (("tenantID", tenant) ∷ m)

  abbrev pub from_url : String ⊎ String → Mapped String → Challenge
  from_url (inl e) m = malformed e
  from_url (inr path) m = tenant_of (drop_text 1 path) m

  abbrev pub with_pair : String → String → Mapped String → Challenge
  with_pair key value m =
      if str_eq key "authorization" || str_eq key "authorization_uri"
      then from_url (path_of value) m
      else challenged ((key, value) ∷ m)

  -- `key=value` with its quotes removed; anything else is passed over
  unfoldable pub take_pair : List String → Mapped String → Challenge
  take_pair (key ∷ value ∷ []) m = with_pair (trim b'"' key) (trim b'"' value) m
  take_pair parts m = challenged m

  -- the pairs in order; the last one of a key stands first
  unfoldable pub take_pairs : List String → Mapped String → Challenge
  take_pairs [] m = challenged m
  take_pairs (pair ∷ pairs) m = elim (take_pair (split_on b'=' (trim_space pair)) m) [
    | challenged m' ↦ take_pairs pairs m'
    | malformed e ↦ malformed e
    | challenge_panics ↦ challenge_panics
  ]

  abbrev pub challenge_of : Option String → Challenge
  challenge_of none = challenge_panics
  challenge_of (some s) = take_pairs (split_on b',' s) []

  -- `newBearerChallenge`, of the header
  unfoldable pub new_bearer_challenge : String → Challenge
  new_bearer_challenge header = challenge_of (drop_text 7 (trim_space header))

  -- What the probe is answered: a status and the WWW-Authenticate header, or an error.
  module _ {W : Type 0} (probe : Outgoing → W → (Error ⊎ (ℕ × String)) × W)
      (callback : Option (String → String → W → (Error ⊎ PrepareDecorator Outgoing) × W)) where
    abbrev pub authorized_by :
        (Error ⊎ PrepareDecorator Outgoing) × W → Outgoing → Result Outgoing × W
    authorized_by (inl e, w) r = (err e, w)
    authorized_by (inr ba, w) r = (prepare (some r) (ba ∷ []), w)

    abbrev pub call_back :
        Option (String → String → W → (Error ⊎ PrepareDecorator Outgoing) × W)
        → Mapped String
        → Outgoing
        → W
        → Result Outgoing × W
    call_back none m r w = (ok r, w)
    call_back (some f) m r w = authorized_by (f (value_of "tenantID" m) (value_of "resource" m) w) r

    abbrev pub on_challenge : Challenge → Outgoing → W → Result Outgoing × W
    on_challenge (challenged m) r w = call_back callback m r w
    on_challenge (malformed e) r w = (err (external e), w)
    on_challenge challenge_panics r w = (panic, w)

    abbrev pub probed : Outgoing → (Error ⊎ (ℕ × String)) × W → Result Outgoing × W
    probed r (inl e, w) = (err e, w)
    probed r (inr (status, header), w) =
        if status == 401 && has_bearer_challenge header
        then on_challenge (new_bearer_challenge header) r w
        else (ok r, w)

    abbrev pub prepared_then_probed : Result Outgoing → W → Result Outgoing × W
    prepared_then_probed (ok r) w =
        probed r (probe (record r { body = none; content_length = 0 }) w)
    prepared_then_probed (err e) w = (err e, w)
    prepared_then_probed panic w = (panic, w)

    -- `BearerAuthorizerCallback`
    unfoldable pub callback_authorizer : Preparer Outgoing → Outgoing → W → Result Outgoing × W
    callback_authorizer p r w = prepared_then_probed (p r) w
