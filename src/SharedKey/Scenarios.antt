-- ===== src/SharedKey/Scenarios.antt =====
-- autorest/authorization_storage.go: runs at concrete headers and queries.
use go_autorest.Prelude.{
  ◌≡◌, ◌≢◌, refl, String, true, false, [], ◌∷◌, inr, str_eq, eq_iff, if◌then◌else◌,
}
use mathlib.Core.List.{Permᴰ}
use go_autorest.Adal.Types.{set}
use go_autorest.SharedKey.Sorting.{
  str_le, insert_string, sort_strings, join, has_prefix, trim_suffix,
}
use go_autorest.SharedKey.Canonical.{
  shared_key, shared_key_lite, Header, Params, Request, Library, SharedKeyAuthorizer, find,
  query_part, collect, build_canonicalized_header, build_canonicalized_resource,
  build_canonicalized_string, create_authorization_header, get_canonicalized_account_name, add_key,
  set_header, dated, build_shared_key, with_authorization,
}
use go_autorest.SharedKey.Orderless.{signature-Perm}
use go_autorest.SharedKey.Signing.{CanonicalKeys, Signs, with_authorization-Signs}

-- texts that need no change of case, and one URL
abbrev library : Library String
library = record {
  parse_url = λ u. inr (record { no_path = false; escaped_path = "/c"; raw_query = "q" });
  parse_query = λ q. inr (("comp", "list" ∷ []) ∷ []);
  to_lower = λ s.
      if str_eq s "X-Ms-Version"
      then "x-ms-version"
      else if str_eq s "X-Ms-Date"
      then "x-ms-date"
      else s;
  trim_space = λ s. s;
  canonical_key = λ s. s;
  decode_key = λ s. inr s;
  sign = λ k s. s;
}

abbrev header : Header
header = record {
  keys = "X-Ms-Version" ∷ "x-ms-meta" ∷ [];
  get = λ k. if str_eq k "X-Ms-Version" then "1" else if str_eq k "x-ms-meta" then "m" else "";
}

signed_header : build_canonicalized_header library header ≡ "x-ms-meta:m\nx-ms-version:1"
unfolding build_canonicalized_header collect has_prefix set find sort_strings insert_string str_le
    trim_suffix
signed_header = refl

abbrev params : Params
params = ("b", "2" ∷ "1" ∷ []) ∷ ("a", "3" ∷ []) ∷ []

signed_params : query_part shared_key params ≡ "\na:3\nb:1,2"
unfolding query_part join find sort_strings insert_string str_le
signed_params = refl

b_is_not-a : ◌≢◌ {A = String} "a" "b"
b_is_not-a e = let same : false ≡ true = (eq_iff "a" "b").1 e in absurd (cc)

signature-Perm_example :
    (build_canonicalized_header library header
      ≡ build_canonicalized_header library
          (record header { keys = "x-ms-meta" ∷ "X-Ms-Version" ∷ [] }))
    × (query_part shared_key params
        ≡ query_part shared_key (("a", "3" ∷ []) ∷ ("b", "2" ∷ "1" ∷ []) ∷ []))
unfolding has_prefix
signature-Perm_example =
    signature-Perm library header ("x-ms-meta" ∷ "X-Ms-Version" ∷ []) shared_key params
      (("a", "3" ∷ []) ∷ ("b", "2" ∷ "1" ∷ []) ∷ []) ((λ e. cc, tt), (tt, tt))
      (Permᴰ.swap refl refl) ((b_is_not-a, tt), (tt, tt)) (Permᴰ.swap refl refl)

abbrev keys : CanonicalKeys library
keys = record { authorization = refl; date = refl; xms_date = refl }

abbrev authorizer : SharedKeyAuthorizer String
authorizer = record {
  account_name = "account-secondary";
  account_key = "key";
  key_type = shared_key_lite;
}

abbrev request : Request
request = record { method = "GET"; url = "https://account/c?q"; header = header }

abbrev signed_request : Request
signed_request = record request {
  header =
      set_header library.canonical_key "Authorization"
        "SharedKeyLite account:GET\n\n\n\nx-ms-date:today\nx-ms-meta:m\nx-ms-version:1\n/account/c?comp=list"
        (dated library "today" header);
}

with_authorization-Signs_example : Signs library authorizer "today" request signed_request
unfolding with_authorization build_shared_key build_canonicalized_resource query_part find
    build_canonicalized_string create_authorization_header get_canonicalized_account_name add_key
    set_header dated build_canonicalized_header collect has_prefix set sort_strings insert_string
    str_le trim_suffix join
with_authorization-Signs_example =
    with_authorization-Signs library authorizer "today" request signed_request keys refl refl
