-- ===== src/Async/Headers.antt =====
-- autorest/azure/async.go: the polling URLs of the response headers, and `initPollingMethod`.
use go_autorest.Prelude.{String, Bool, false, Option, none, some, [], ◌∷◌, if◌then◌else◌, is_empty}
use go_autorest.Http.{Response}
use go_autorest.Errors.{new_error}
use go_autorest.Platform.{Platform}
use go_autorest.Result.{Result, ok, err, Exec, pure, lift, modify, ◌>>=◌}
use go_autorest.Async.Tracker.{Base, async_operation, location, deref}

-- `err == nil && u.IsAbs()`
abbrev is_abs : Option Bool → Bool
is_abs none = false
is_abs (some b) = b

module _ (p : Platform) where
  unfoldable pub is_valid_url : String → Bool
  is_valid_url s = is_abs (p.url_parse s)

  unfoldable pub get_url_from_async_op_header : Response → Result String
  get_url_from_async_op_header resp =
      let s = resp.header "Azure-Asyncoperation" in
      if is_empty s
      then ok ""
      else if is_valid_url s
      then ok s
      else err (new_error "azure" "getURLFromAsyncOpHeader" "invalid polling URL '%s'" (s ∷ []))

  unfoldable pub get_url_from_location_header : Response → Result String
  get_url_from_location_header resp =
      let s = resp.header "Location" in
      if is_empty s
      then ok ""
      else if is_valid_url s
      then ok s
      else err (new_error "azure" "getURLFromLocationHeader" "invalid polling URL '%s'" (s ∷ []))

  -- the second half: the Location header, when there is no Azure-AsyncOperation header
  unfoldable pub init_from_location : Response → Exec Base Unit
  init_from_location resp = lift (get_url_from_location_header resp) >>= λ lh.
      if is_empty lh then pure tt else modify (λ s. record s { uri = lh; pm = location })

  unfoldable pub init_from_headers : Response → Exec Base Unit
  init_from_headers resp = lift (get_url_from_async_op_header resp) >>= λ ao.
      if is_empty ao
      then init_from_location resp
      else modify (λ s. record s { uri = ao; pm = async_operation })

  unfoldable pub init_polling_method : Exec Base Unit
  init_polling_method = do resp ← deref; init_from_headers resp
