-- ===== src/SharedKey/Canonical.antt =====
-- autorest/authorization_storage.go: the canonical resource, header and string of a request, and
-- the header that signs them.
use Prim.Native.String.{◌++◌}
use go_autorest.Prelude.{
  String, Bool, true, false, ◌&&◌, Option, none, some, List, [], ◌∷◌, ◌⊎◌, inl, inr, is_empty,
  str_eq, if◌then◌else◌,
}
use go_autorest.Adal.Types.{Values, set}
use go_autorest.SharedKey.Sorting.{sort_strings, join, has_prefix, trim_suffix}

-- A key type is a string; the four that are known, and the others.
pub data SharedKeyType : Type 0 where
  shared_key shared_key_for_table shared_key_lite shared_key_lite_for_table : SharedKeyType
  unsupported : String → SharedKeyType

-- The keys of an `http.Header`, in the order that a loop over the map meets them, and
-- `Header.Get`.
pub record Header : Type 0 where
  pub keys : List String
  pub get : String → String

-- the parameters of a query, in the order of the map
abbrev pub Params : Type 0
Params = List (String × List String)

pub record Request : Type 0 where
  pub method : String
  pub url : String
  pub header : Header

-- What `url.Parse` tells: the path is empty, the path as it is escaped, the query.
pub record ParsedUrl : Type 0 where
  pub no_path : Bool
  pub escaped_path : String
  pub raw_query : String

-- The Go library: an error's text, or a value.
pub record Library (Key : Type 0) : Type 0 where
  pub parse_url : String → String ⊎ ParsedUrl
  pub parse_query : String → String ⊎ Params
  pub to_lower : String → String
  pub trim_space : String → String
  -- http.CanonicalHeaderKey
  pub canonical_key : String → String
  -- base64.StdEncoding.DecodeString; the SHA-256 HMAC of a text with a key, in base64
  pub decode_key : String → String ⊎ Key
  pub sign : Key → String → String

pub record SharedKeyAuthorizer (Key : Type 0) : Type 0 where
  pub account_name : String
  pub account_key : Key
  pub key_type : SharedKeyType

abbrev pub storage_emulator_account_name : String
storage_emulator_account_name = "devstoreaccount1"

unfoldable pub get_canonicalized_account_name : String → String
get_canonicalized_account_name name = trim_suffix name "-secondary"

-- `m[key]`, of a map with one entry to a key
unfoldable pub find {ℓ} : {A : Type ℓ} → String → List (String × A) → Option A
find k [] = none
find k ((j, v) ∷ ps) = if str_eq j k then some v else find k ps

abbrev pub or_empty : Option String → String
or_empty none = ""
or_empty (some s) = s

abbrev pub keys_of {ℓ} : {A : Type ℓ} → List (String × A) → List String
keys_of [] = []
keys_of ((k, v) ∷ ps) = k ∷ keys_of ps

abbrev pub sorted_values : Option (List String) → List String
sorted_values none = []
sorted_values (some vs) = sort_strings vs

-- a parameter with its values
abbrev pub complete_param : Params → String → String
complete_param ps k = k ++ (":" ++ join (sorted_values (find k ps)) ",")

abbrev pub complete_params : Params → List String → List String
complete_params ps [] = []
complete_params ps (k ∷ ks) = complete_param ps k ∷ complete_params ps ks

-- `url.ParseQuery` gives no key without a value.
abbrev pub comp_of : Option (List String) → String
comp_of none = ""
comp_of (some []) = "?comp="
comp_of (some (v ∷ vs)) = "?comp=" ++ v

-- what the query adds to the resource, by the type of the key
unfoldable pub query_part : SharedKeyType → Params → String
query_part shared_key [] = ""
query_part shared_key (p ∷ ps) =
    "\n" ++ join (complete_params (p ∷ ps) (sort_strings (keys_of (p ∷ ps)))) "\n"
query_part t ps = comp_of (find "comp" ps)

-- the loop over the header's keys, with the map made so far
unfoldable pub collect : {Key : Type 0} → Library Key → Header → List String → Values → Values
collect lib h [] cm = cm
collect lib h (k ∷ ks) cm =
    let name = lib.trim_space (lib.to_lower k) in
    collect lib h ks (if has_prefix name "x-ms-" then set name (h.get k) cm else cm)

abbrev pub header_lines : Values → List String → String
header_lines cm [] = ""
header_lines cm (k ∷ ks) = k ++ (":" ++ (or_empty (find k cm) ++ ("\n" ++ header_lines cm ks)))

abbrev pub headers_of : Values → String
headers_of [] = ""
headers_of (v ∷ vs) = trim_suffix (header_lines (v ∷ vs) (sort_strings (keys_of (v ∷ vs)))) "\n"

unfoldable pub add_key : String → List String → List String
add_key k [] = k ∷ []
add_key k (j ∷ js) = if str_eq j k then j ∷ js else j ∷ add_key k js

-- `Header.Set`, at a canonical key, by `http.CanonicalHeaderKey`
unfoldable pub set_header : (String → String) → String → String → Header → Header
set_header canonical_key k v h = record {
  keys = add_key k h.keys;
  get = λ j. if str_eq (canonical_key j) k then v else h.get j;
}

module _ {Key : Type 0} (lib : Library Key) where
  unfoldable pub build_canonicalized_header : Header → String
  build_canonicalized_header h = headers_of (collect lib h h.keys [])

  abbrev pub with_query : String → SharedKeyType → String ⊎ Params → String ⊎ String
  with_query cr t (inl e) = inl ("buildCanonicalizedResource error: " ++ e)
  with_query cr t (inr ps) = inr (cr ++ query_part t ps)

  abbrev pub with_path : String → SharedKeyType → String ⊎ ParsedUrl → String ⊎ String
  with_path account t (inl e) = inl ("buildCanonicalizedResource error: " ++ e)
  with_path account t (inr u) =
      let owner =
        if str_eq account storage_emulator_account_name
        then ""
        else "/" ++ get_canonicalized_account_name account in
      with_query (owner ++ (if u.no_path then "/" else u.escaped_path)) t
        (lib.parse_query u.raw_query)

  unfoldable pub build_canonicalized_resource : String → String → SharedKeyType → String ⊎ String
  build_canonicalized_resource account uri t = with_path account t (lib.parse_url uri)

  abbrev pub content_length_of : Header → String
  content_length_of h = let n = h.get "Content-Length" in if str_eq n "0" then "" else n

  -- the date that is signed; the header that `x-ms-date` stands in is signed too, for two types
  abbrev pub is_full : SharedKeyType → Bool
  is_full shared_key = true
  is_full shared_key_lite = true
  is_full _ = false

  abbrev pub signed_date : SharedKeyType → Header → String
  signed_date t h =
      let v = h.get "X-Ms-Date" in if is_empty v then h.get "Date" else if is_full t then "" else v

  unfoldable pub build_canonicalized_string :
      String → Header → String → SharedKeyType → String ⊎ String
  build_canonicalized_string verb h resource shared_key = inr (
      join
        (verb
          ∷ h.get "Content-Encoding"
          ∷ h.get "Content-Language"
          ∷ content_length_of h
          ∷ h.get "Content-MD5"
          ∷ h.get "Content-Type"
          ∷ signed_date shared_key h
          ∷ h.get "If-Modified-Since"
          ∷ h.get "If-Match"
          ∷ h.get "If-None-Match"
          ∷ h.get "If-Unmodified-Since"
          ∷ h.get "Range"
          ∷ build_canonicalized_header h
          ∷ resource
          ∷ [])
        "\n")
  build_canonicalized_string verb h resource shared_key_for_table = inr (
      join
        (verb
          ∷ h.get "Content-MD5"
          ∷ h.get "Content-Type"
          ∷ signed_date shared_key_for_table h
          ∷ resource
          ∷ [])
        "\n")
  build_canonicalized_string verb h resource shared_key_lite = inr (
      join
        (verb
          ∷ h.get "Content-MD5"
          ∷ h.get "Content-Type"
          ∷ signed_date shared_key_lite h
          ∷ build_canonicalized_header h
          ∷ resource
          ∷ [])
        "\n")
  build_canonicalized_string verb h resource shared_key_lite_for_table =
      inr (join (signed_date shared_key_lite_for_table h ∷ resource ∷ []) "\n")
  build_canonicalized_string verb h resource (unsupported t) =
      inl ("key type '" ++ (t ++ "' is not supported"))

  abbrev pub scheme_of : SharedKeyType → String
  scheme_of shared_key = "SharedKey"
  scheme_of shared_key_for_table = "SharedKey"
  scheme_of shared_key_lite = "SharedKeyLite"
  scheme_of shared_key_lite_for_table = "SharedKeyLite"
  scheme_of (unsupported t) = ""

  unfoldable pub create_authorization_header : String → Key → String → SharedKeyType → String
  create_authorization_header account key text t =
      scheme_of t ++ (" " ++ (get_canonicalized_account_name account ++ (":" ++ lib.sign key text)))

  -- the header with a date
  unfoldable pub dated : String → Header → Header
  dated now h =
      if is_empty (h.get "Date") && is_empty (h.get "X-Ms-Date")
      then set_header lib.canonical_key "X-Ms-Date" now h
      else h

  abbrev pub signed : String → Key → SharedKeyType → String ⊎ String → String ⊎ String
  signed account key t (inl e) = inl e
  signed account key t (inr text) = inr (create_authorization_header account key text t)

  abbrev pub shared_key_of :
      String
      → Key
      → String
      → Request
      → SharedKeyType
      → String ⊎ String
      → (String ⊎ String) × Request
  shared_key_of account key now r t (inl e) = (inl e, r)
  shared_key_of account key now r t (inr resource) =
      let h = dated now r.header in
      (
        signed account key t (build_canonicalized_string r.method h resource t),
        record r { header = h },
      )

  -- `buildSharedKey`, at a time as `http.TimeFormat` prints it, and the request after it
  unfoldable pub build_shared_key :
      String → Key → String → Request → SharedKeyType → (String ⊎ String) × Request
  build_shared_key account key now r t =
      shared_key_of account key now r t (build_canonicalized_resource account r.url t)

  abbrev pub authorized : (String ⊎ String) × Request → (String ⊎ Request)
  authorized (inl e, r) = inl e
  authorized (inr a, r) =
      inr (record r { header = set_header lib.canonical_key "Authorization" a r.header })

  -- the decorator of `WithAuthorization`, on what the preparer that it wraps returns
  unfoldable pub with_authorization :
      SharedKeyAuthorizer Key → String → String ⊎ Request → String ⊎ Request
  with_authorization sk now (inl e) = inl e
  with_authorization sk now (inr r) =
      authorized (build_shared_key sk.account_name sk.account_key now r sk.key_type)

  abbrev pub authorizer_of :
      String → SharedKeyType → String ⊎ Key → String ⊎ SharedKeyAuthorizer Key
  authorizer_of name t (inl e) = inl ("malformed storage account key: " ++ e)
  authorizer_of name t (inr key) =
      inr (record { account_name = name; account_key = key; key_type = t })

  unfoldable pub new_shared_key_authorizer :
      String → String → SharedKeyType → String ⊎ SharedKeyAuthorizer Key
  new_shared_key_authorizer name key t = authorizer_of name t (lib.decode_key key)
