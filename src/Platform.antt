-- ===== src/Platform.antt =====
-- The Go standard library as the code uses it: functions that are parameters of the model, and
-- the documented behaviour that some theorems rely on.
use Prim.Native.Char.{code}
use go_autorest.Prelude.{
  ℤ, ℕ, ◌+◌, String, Bool, true, false, ◌&&◌, ◌≡◌, Option, List, leb, ltb, ◌==◌, if◌then◌else◌,
}
use go_autorest.Json.{Json, Fields}

-- What `json.Unmarshal` gives: a value, or an error's message.
pub data Decoded {ℓ} (A : Type ℓ) : Type ℓ where
  decoded : A → Decoded A
  malformed : String → Decoded A

-- `serviceErrorInternal` of `ServiceError.UnmarshalJSON`
pub record ServiceErrorInternal : Type 0 where
  pub code : String
  pub message : String
  pub target : Option String
  pub additional_info : Option (List Fields)
  pub details : Json
  pub inner_error : Json

pub record Platform : Type 0 where
  -- strings.ToUpper, strings.EqualFold
  pub to_upper : String → String
  pub equal_fold : String → String → Bool
  -- url.Parse: `none` is an error, and the Boolean is `u.IsAbs()`
  pub url_parse : String → Option Bool
  -- http.NewRequest(http.MethodGet, url, nil): the error's message, if it fails
  pub new_request_error : String → Option String
  -- json.Unmarshal into a `map[string]interface{}`
  pub unmarshal_object : String → Decoded Fields
  -- json.Unmarshal into a struct with the one member `error`: its text, if it is there and not null
  pub unmarshal_error_member : String → Decoded (Option String)
  -- json.Unmarshal into a `serviceErrorInternal`
  pub unmarshal_internal : String → Decoded ServiceErrorInternal
  -- whether the text is the JSON literal null, which sets a pointer to nil
  pub is_null_text : String → Bool
  -- time.ParseDuration, in nanoseconds: `none` is an error
  pub parse_duration : String → Option ℤ

-- ASCII letters compared without regard to case.
abbrev lower : ℕ → ℕ
lower c = if leb b'A' c && leb c b'Z' then c + 32 else c

unfoldable pub ascii_fold : String → String → Bool
ascii_fold String.[] String.[] = true
ascii_fold String.[] (String.◌∷◌ d t) = false
ascii_fold (String.◌∷◌ c s) String.[] = false
ascii_fold (String.◌∷◌ c s) (String.◌∷◌ d t) = lower (code c) == lower (code d) && ascii_fold s t

unfoldable pub is_ascii : String → Bool
is_ascii String.[] = true
is_ascii (String.◌∷◌ c s) = ltb (code c) 128 && is_ascii s

-- strings.EqualFold: "simple Unicode case-folding, a general form of case-insensitivity", which
-- on ASCII texts is the comparison of lower-cased letters.
pub record FoldsCase (p : Platform) : Type 0 where
  pub folds :
      (s t : String) → is_ascii s ≡ true → is_ascii t ≡ true → p.equal_fold s t ≡ ascii_fold s t
