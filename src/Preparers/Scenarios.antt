-- ===== src/Preparers/Scenarios.antt =====
-- Runs of the decorators of preparers.
use go_autorest.Prelude.{
  String, ◌≡◌, ◌≢◌, refl, none, some, List, [], ◌∷◌, inr, map, str_eq, if◌then◌else◌,
}
use mathlib.Core.List.{Permᴰ}
use go_autorest.Result.{ok}
use go_autorest.Senders.{Url, Library}
use go_autorest.Preparers.{prepare, create_preparer, decorate_preparer}
use go_autorest.Preparers.ClientIds.{
  with_returning_client_id, with_client_id, with_return_client_id,
}
use go_autorest.Preparers.Text.{replacing, trim_right, trim_slashes}
use go_autorest.SharedKey.Sorting.{has_prefix}
use go_autorest.Preparers.Outgoing.{
  Outgoing, header_set, with_header, empty_request, Value, str, Mapped, ensure_value_string,
  ensure_value_strings, with_method, as_post,
}
use go_autorest.Preparers.Templates.{
  substitute, parse_url, set_url, with_base_url, with_path_parameters, use_path_parameters,
}
use go_autorest.Preparers.Templates.Pieces.{Piece, lit, slot, print, is_plain, AllPlain}
use go_autorest.Preparers.Templates.Filled.{fill, ArePlain, substitute-Perm}
use go_autorest.Preparers.Templates.Again.{filled_path, use_path_again}
use go_autorest.Preparers.Queries.{
  Query, QueryLibrary, use_query_parameters, query_set, unescape_values, add_parameters,
}
use go_autorest.Preparers.Queries.Reused.{IsUsed, query_used-replaces}

abbrev url_of : String → Url
url_of u = record { scheme = "https"; raw_query = ""; rest = u }

abbrev lib : Library
lib = record {
  url_parse = λ u. inr (url_of u);
  reencode = λ q. inr q;
  url_string = λ u. u.rest;
  parse_duration = λ t. none;
}

abbrev template : List Piece
template =
    lit "/subscriptions/" ∷ slot "id" ∷ lit "/providers/" ∷ slot "name" ∷ lit "/register" ∷ []

abbrev parameters : Mapped String
parameters = ("name", "Microsoft.Test") ∷ ("id", "42") ∷ []

abbrev turned : Mapped String
turned = ("id", "42") ∷ ("name", "Microsoft.Test") ∷ []

substituted :
    substitute parameters "/subscriptions/{id}/providers/{name}/register"
    ≡ "/subscriptions/42/providers/Microsoft.Test/register"
unfolding substitute replacing has_prefix
substituted = refl

plain_parameters : ArePlain parameters
unfolding is_plain
plain_parameters = (refl, refl, (refl, refl, tt))

plain_template : AllPlain template
unfolding is_plain
plain_template = (refl, (refl, (refl, (refl, (refl, tt)))))

id_is_not-name : ◌≢◌ {A = String} "id" "name"
id_is_not-name e = absurd (cc)

substitute-Perm_example :
    substitute turned (print template) ≡ print (map (fill parameters) template)
substitute-Perm_example =
    substitute-Perm parameters turned template (Permᴰ.swap refl refl)
      ((id_is_not-name, tt), (tt, tt)) plain_parameters plain_template

abbrev values : Mapped Value
values = ("name", str "Microsoft.Test") ∷ ("id", str "42") ∷ []

abbrev given : Outgoing
given = record empty_request { url = some (url_of "https://example.com/") }

plain_values : ArePlain (ensure_value_strings values)
unfolding is_plain ensure_value_strings ensure_value_string
plain_values = (refl, refl, (refl, refl, tt))

use_path_again_example :
    (use_path_parameters lib values (print template) (λ r. ok r) given ≡ (
      set_url lib
          (parse_url lib
            (url_of "https://example.com/")
            (filled_path (ensure_value_strings values) template))
          given,
      filled_path (ensure_value_strings values) template,
    ))
    × (use_path_parameters lib values
          (filled_path (ensure_value_strings values) template)
          (λ r. ok r)
          given
        ≡ use_path_parameters lib values (print template) (λ r. ok r) given)
use_path_again_example =
    use_path_again lib values template (λ r. ok r) given given (url_of "https://example.com/") refl
      refl plain_values plain_template

prepared :
    prepare (some empty_request) (
      as_post
      ∷ with_base_url lib "https://example.com/"
      ∷ with_path_parameters lib "/subscriptions/{id}/providers/{name}/register" values
      ∷ [])
    ≡ ok (record empty_request {
      method = "POST";
      url = some (url_of "https://example.com/subscriptions/42/providers/Microsoft.Test/register");
    })
unfolding prepare with_base_url with_path_parameters with_method substitute replacing has_prefix
    parse_url trim_slashes trim_right ensure_value_strings ensure_value_string
prepared = refl

-- a library that unescapes `%25`
abbrev queries : QueryLibrary
queries = record {
  query = λ u. [];
  encode = λ q. "encoded";
  unescape = λ v. if str_eq v "%2525" then inr "%25" else if str_eq v "%25" then inr "%" else inr v;
}

abbrev escaped : Query
escaped = ("filter", "%2525" ∷ []) ∷ []

-- the second use sets another value than the first
used_twice :
    let first = use_query_parameters queries escaped (λ r. ok r) given in
    (first.1 ≡ (("filter", "%25" ∷ []) ∷ []))
    × ((use_query_parameters queries first.1 (λ r. ok r) given).1 ≡ (("filter", "%" ∷ []) ∷ []))
unfolding use_query_parameters add_parameters unescape_values query_set
used_twice = (refl, refl)

query_used-replaces_example :
    IsUsed queries escaped given (use_query_parameters queries escaped (λ r. ok r) given)
query_used-replaces_example = query_used-replaces queries escaped (λ r. ok r) given given refl

-- the id, and that it is asked for
identified :
    prepare (some empty_request) (with_returning_client_id (λ k. k) "0F39878C" ∷ [])
    ≡ ok (record empty_request {
      headers =
          header_set "x-ms-return-client-request-id" "true"
            (header_set "x-ms-client-request-id" "0F39878C" (λ name. []));
    })
unfolding prepare create_preparer decorate_preparer with_returning_client_id with_header
    with_client_id with_return_client_id
identified = refl
