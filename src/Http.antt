-- ===== src/Http.antt =====
-- What the code reads of net/http's requests and responses, and autorest/autorest.go's test of a
-- response's status code.
use go_autorest.Prelude.{
  ℕ, String, Bool, true, false, Option, none, some, List, [], ◌∷◌, ◌==◌, ℤ, if◌then◌else◌,
}

-- A body that reads to its end, as text, or that fails with an error's message.
pub data Body : Type 0 where
  readable : String → Body
  broken : String → Body

-- `header` is `Header.Get` at the canonical key; `request_method` and `request_url` are those of
-- `resp.Request`, whose URL is printed by `URL.String`.
pub record Response : Type 0 where
  pub status_code : ℕ
  pub header : String → String
  pub body : Option Body
  pub content_length : ℤ
  pub request_method : String
  pub request_url : String

pub record Request : Type 0 where
  pub method : String
  pub url : String
  pub request_header : String → String

unfoldable pub contains_int : List ℕ → ℕ → Bool
contains_int [] n = false
contains_int (i ∷ ints) n = let rest = contains_int ints n in if i == n then true else rest

unfoldable pub response_has_status_code : Option Response → List ℕ → Bool
response_has_status_code none codes = false
response_has_status_code (some resp) codes = contains_int codes resp.status_code
