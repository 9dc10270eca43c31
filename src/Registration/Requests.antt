-- ===== src/Registration/Requests.antt =====
-- autorest/azure/rp.go: getProvider, getSubscription, and the requests that `register` sends.
use go_autorest.Prelude.{String, Option, none, some, List, [], ◌∷◌, if◌then◌else◌, str_eq}
use go_autorest.Json.{Json, str as json_str, Fields, get_field}
use go_autorest.Errors.{ServiceError}
use go_autorest.Result.{Result}
use go_autorest.Senders.{Library}
use go_autorest.Preparers.{create_preparer}
use go_autorest.Preparers.Text.{plus_to_space, split_on}
use go_autorest.Preparers.Outgoing.{Outgoing, empty_request, Value, str, Mapped, as_post, as_get}
use go_autorest.Preparers.Templates.{with_base_url, with_path_parameters}
use go_autorest.Preparers.Queries.{QueryLibrary, with_query_parameters}
use go_autorest.Respond.Azure.{Decoding}

-- the part after the first "subscriptions" that is not the last part
unfoldable pub after_subscriptions : List String → String
after_subscriptions [] = ""
after_subscriptions (v ∷ []) = ""
after_subscriptions (v ∷ w ∷ parts) =
    let rest = after_subscriptions (w ∷ parts) in if str_eq v "subscriptions" then w else rest

unfoldable pub get_subscription : String → String
unfolding after_subscriptions
get_subscription path = after_subscriptions (split_on b'/' path)

-- The provider, none, or a panic, where the first detail has no text as its target.
pub data Provider : Type 0 where
  provider : String → Provider
  no_provider : Provider
  provider_panics : Provider

abbrev as_string : Json → Provider
as_string (json_str s) = provider s
as_string v = provider_panics

abbrev target_of : Option (List Fields) → Provider
target_of none = no_provider
target_of (some []) = no_provider
target_of (some (fs ∷ more)) = as_string (get_field "target" fs)

abbrev provider_of : Option ServiceError → Provider
provider_of none = no_provider
provider_of (some se) = target_of se.details

unfoldable pub get_provider : Decoding → Provider
get_provider re = provider_of re.service_error

-- The Go library: URLs, queries and url.QueryEscape.
pub record UrlLibrary : Type 0 where
  pub urls : Library
  pub queries : QueryLibrary
  pub escape : String → String

module _ (lib : UrlLibrary) where
  abbrev pub path_parameters : String → String → Mapped Value
  path_parameters provider_name sub_id =
      ("resourceProviderNamespace", str (plus_to_space (lib.escape provider_name)))
      ∷ ("subscriptionId", str (plus_to_space (lib.escape sub_id)))
      ∷ []

  abbrev pub query_parameters : Mapped Value
  query_parameters = ("api-version", str "2016-09-01") ∷ []

  -- the POST that registers the provider; `base` is the scheme and host of the original request
  unfoldable pub register_request : String → Mapped Value → Result Outgoing
  register_request base parameters =
      create_preparer
        (as_post
          ∷ with_base_url lib.urls base
          ∷ with_path_parameters lib.urls
              "/subscriptions/{subscriptionId}/providers/{resourceProviderNamespace}/register"
              parameters
          ∷ with_query_parameters lib.queries query_parameters
          ∷ [])
        empty_request

  -- the GET that asks for its state
  unfoldable pub poll_request : String → Mapped Value → Result Outgoing
  poll_request base parameters =
      create_preparer
        (as_get
          ∷ with_base_url lib.urls base
          ∷ with_path_parameters lib.urls
              "/subscriptions/{subscriptionId}/providers/{resourceProviderNamespace}" parameters
          ∷ with_query_parameters lib.queries query_parameters
          ∷ [])
        empty_request
