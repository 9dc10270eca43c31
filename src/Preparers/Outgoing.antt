-- ===== src/Preparers/Outgoing.antt =====
-- autorest/preparer.go: the decorators that set a request's method, headers and body.
use Prim.Native.String.{◌++◌, len}
use go_autorest.Prelude.{
  ℕ, String, Bool, Option, none, some, List, [], ◌∷◌, ◌⊎◌, inl, inr, if◌then◌else◌, str_eq,
}
use go_autorest.Errors.{external}
use go_autorest.Result.{Result, ok, err, panic}
use go_autorest.Senders.{Url}
use go_autorest.Preparers.{Preparer, PrepareDecorator}

-- The request: its URL, nil or not; the values of a header by its canonical name, where none is an
-- absent one; the text of its body, where `none` is a nil body.
pub record Outgoing : Type 0 where
  pub method : String
  pub url : Option Url
  pub headers : String → List String
  pub content_length : ℕ
  pub body : Option String

-- `&http.Request{}`
abbrev pub empty_request : Outgoing
empty_request = record {
  method = "";
  url = none;
  headers = λ name. [];
  content_length = 0;
  body = none;
}

-- Values of an `interface{}`: nil, a string, bytes with their text and the print of each, any
-- other value as `%v` prints it, a slice with its print and those of its items.
pub data Value : Type 0 where
  nil_value : Value
  str : String → Value
  bytes : (text : String) (items : List String) → Value
  printed : String → Value
  slice : (text : String) (items : List String) → Value

unfoldable pub ensure_value_string : Value → String
ensure_value_string nil_value = ""
ensure_value_string (str s) = s
ensure_value_string (bytes text items) = text
ensure_value_string (printed s) = s
ensure_value_string (slice text items) = text

-- a map, in the order in which Go ranges over it
abbrev pub Mapped : Type 0 → Type 0
Mapped A = List (String × A)

unfoldable pub ensure_value_strings : Mapped Value → Mapped String
ensure_value_strings [] = []
ensure_value_strings ((k, v) ∷ m) = (k, ensure_value_string v) ∷ ensure_value_strings m

-- `Header.Set`
abbrev pub header_set : String → String → (String → List String) → String → List String
header_set name value h k = if str_eq k name then value ∷ [] else h k

-- what a decorator does after the preparer that it decorates
abbrev pub then_prepared : Result Outgoing → Preparer Outgoing → Result Outgoing
then_prepared (ok r) f = f r
then_prepared (err e) f = err e
then_prepared panic f = panic

unfoldable pub with_nothing : PrepareDecorator Outgoing
with_nothing p r = p r

-- http.CanonicalHeaderKey
module _ (canonical : String → String) where
  abbrev pub set_header : String → String → Outgoing → Outgoing
  set_header name value r = record r { headers = header_set (canonical name) value r.headers }

  unfoldable pub with_header : String → String → PrepareDecorator Outgoing
  with_header name value p r = then_prepared (p r) (λ r'. ok (set_header name value r'))

  abbrev pub set_headers : Mapped String → Outgoing → Outgoing
  set_headers [] r = r
  set_headers ((name, value) ∷ h) r = set_headers h (set_header name value r)

  unfoldable pub with_headers : Mapped Value → PrepareDecorator Outgoing
  with_headers headers p r =
      then_prepared (p r) (λ r'. ok (set_headers (ensure_value_strings headers) r'))

  unfoldable pub with_bearer_authorization : String → PrepareDecorator Outgoing
  unfolding with_header
  with_bearer_authorization token = with_header "Authorization" ("Bearer " ++ token)

  unfoldable pub as_content_type : String → PrepareDecorator Outgoing
  unfolding with_header
  as_content_type content_type = with_header "Content-Type" content_type

  unfoldable pub with_user_agent : String → PrepareDecorator Outgoing
  unfolding with_header
  with_user_agent ua = with_header "User-Agent" ua

  unfoldable pub as_form_url_encoded : PrepareDecorator Outgoing
  unfolding as_content_type
  as_form_url_encoded = as_content_type "application/x-www-form-urlencoded"

  unfoldable pub as_json : PrepareDecorator Outgoing
  unfolding as_content_type
  as_json = as_content_type "application/json"

  unfoldable pub as_octet_stream : PrepareDecorator Outgoing
  unfolding as_content_type
  as_octet_stream = as_content_type "application/octet-stream"

unfoldable pub with_method : String → PrepareDecorator Outgoing
with_method m p r = p (record r { method = m })

abbrev pub as_delete : PrepareDecorator Outgoing
as_delete = with_method "DELETE"

abbrev pub as_get : PrepareDecorator Outgoing
as_get = with_method "GET"

abbrev pub as_head : PrepareDecorator Outgoing
as_head = with_method "HEAD"

abbrev pub as_merge : PrepareDecorator Outgoing
as_merge = with_method "MERGE"

abbrev pub as_options : PrepareDecorator Outgoing
as_options = with_method "OPTIONS"

abbrev pub as_patch : PrepareDecorator Outgoing
as_patch = with_method "PATCH"

abbrev pub as_post : PrepareDecorator Outgoing
as_post = with_method "POST"

abbrev pub as_put : PrepareDecorator Outgoing
as_put = with_method "PUT"

abbrev pub set_body : String → Outgoing → Outgoing
set_body text r = record r { content_length = len text; body = some text }

unfoldable pub with_string : String → PrepareDecorator Outgoing
with_string v p r = then_prepared (p r) (λ r'. ok (set_body v r'))

unfoldable pub with_bool : Bool → PrepareDecorator Outgoing
unfolding with_string
with_bool v = with_string (if v then "true" else "false")

abbrev pub bytes_set : Option String → Preparer Outgoing
bytes_set none r = err (external "Input Bytes was nil")
bytes_set (some input) r = ok (set_body input r)

unfoldable pub with_bytes : Option String → PrepareDecorator Outgoing
with_bytes input p r = then_prepared (p r) (bytes_set input)

-- the text of a file, or the error at its end
abbrev pub file_set : String ⊎ String → Preparer Outgoing
file_set (inl e) r = err (external e)
file_set (inr text) r = ok (set_body text r)

unfoldable pub with_file : String ⊎ String → PrepareDecorator Outgoing
with_file file p r = then_prepared (p r) (file_set file)

-- `form` is the form's `Values.Encode`
unfoldable pub with_form_data : (String → String) → String → PrepareDecorator Outgoing
with_form_data canonical form p r = then_prepared (p r) (λ r'.
    ok (set_body form (set_header canonical "Content-Type" "application/x-www-form-urlencoded" r')))

-- json.Marshal: its error or its text; an error is kept in a variable of its own, and lost
abbrev pub json_set : String ⊎ String → Outgoing → Outgoing
json_set (inl e) r = r
json_set (inr text) r = set_body text r

unfoldable pub with_json : String ⊎ String → PrepareDecorator Outgoing
with_json marshalled p r = then_prepared (p r) (λ r'. ok (json_set marshalled r'))

-- xml.Marshal, whose text goes behind xml.Header; `print` is strconv.Itoa
abbrev pub xml_set : (ℕ → String) → String ⊎ String → Outgoing → Outgoing
xml_set print (inl e) r = r
xml_set print (inr b) r =
    let text = "<?xml version=\"1.0\" encoding=\"UTF-8\"?>\n" ++ b in
    set_body text (record r { headers = header_set "Content-Length" (print (len text)) r.headers })

unfoldable pub with_xml : (ℕ → String) → String ⊎ String → PrepareDecorator Outgoing
with_xml print marshalled p r = then_prepared (p r) (λ r'. ok (xml_set print marshalled r'))
