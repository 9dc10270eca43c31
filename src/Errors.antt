-- ===== src/Errors.antt =====
-- autorest/error.go: `DetailedError` and its constructors; autorest/azure/azure.go: the type
-- `ServiceError`.
use go_autorest.Prelude.{Bool, true, false, ℕ, String, Option, none, some, List}
use go_autorest.Json.{Fields}
use go_autorest.Http.{Response}

pub record ServiceError : Type 0 where
  pub code : String
  pub message : String
  pub target : Option String
  pub details : Option (List Fields)
  pub inner_error : Option Fields
  pub additional_info : Option (List Fields)

-- The values of Go's `error` that the code makes or passes on; `token_refresh` is one that
-- implements adal's `TokenRefreshError`. `fmt.Sprintf` is not applied: a
-- detailed error keeps the format and its arguments.
mutual
  pub data Error : Type 0 where
    external : String → Error
    token_refresh : String → Error
    service : ServiceError → Error
    detailed :
        (original : Original) (package_type method : String) (status_code : ℕ) (message : String)
        (args : List String) (response : Option Response)
        → Error

  pub data Original : Type 0 where
    no_error : Original
    original : Error → Original

-- What `Sender.Do` returns: a response, an error, both or neither.
pub record Reply : Type 0 where
  pub answer : Option Response
  pub failure : Option Error

abbrev pub undefined_status_code : ℕ
undefined_status_code = 0

abbrev status_code_of : Option Response → ℕ
status_code_of none = undefined_status_code
status_code_of (some resp) = resp.status_code

unfoldable pub new_error_with_error :
    Original → String → String → Option Response → String → List String → Error
new_error_with_error (original (detailed o p m s t a r)) package_type method resp message args =
    detailed o p m s t a r
new_error_with_error orig package_type method resp message args =
    detailed orig package_type method (status_code_of resp) message args resp

unfoldable pub new_error : String → String → String → List String → Error
new_error package_type method message args =
    new_error_with_error no_error package_type method none message args

unfoldable pub new_error_with_response :
    String → String → Option Response → String → List String → Error
new_error_with_response package_type method resp message args =
    new_error_with_error no_error package_type method resp message args

-- `errors.As`, along `Unwrap`
unfoldable mutual
  pub is_token_refresh_error : Error → Bool
  is_token_refresh_error (external m) = false
  is_token_refresh_error (token_refresh m) = true
  is_token_refresh_error (service e) = false
  is_token_refresh_error (detailed o p m s t a r) = original_is_token_refresh o

  pub original_is_token_refresh : Original → Bool
  original_is_token_refresh no_error = false
  original_is_token_refresh (original e) = is_token_refresh_error e
