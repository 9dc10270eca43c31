-- ===== src/ServiceErrors/Scenarios.antt =====
-- An error object that does not keep to OData v4, and the theorem at it.
use go_autorest.Prelude.{◌≡◌, refl, none, some, [], ◌∷◌}
use go_autorest.Json.{str, arr, obj, nil, cons, end, field}
use go_autorest.Platform.{ServiceErrorInternal}
use go_autorest.ServiceErrors.{service_error_of}
use go_autorest.ServiceErrors.Kept.{AreDetails, IsInnerError, service_error_kept}

abbrev loose : ServiceErrorInternal
loose = record {
  code = "Conflict";
  message = "in use";
  target = none;
  additional_info = none;
  details = obj (field "target" (str "Microsoft.Web") end);
  inner_error = arr (cons (obj (field "code" (str "A") end)) (cons (obj end) nil));
}

loose_details :
    (service_error_of loose).details ≡ some (field "target" (str "Microsoft.Web") end ∷ [])
unfolding service_error_of
loose_details = refl

service_error_kept_example :
    let se = service_error_of loose in
    AreDetails loose.details se.details
    × IsInnerError loose.inner_error se.inner_error
    × (se.code ≡ loose.code)
    × (se.message ≡ loose.message)
    × (se.target ≡ loose.target)
    × (se.additional_info ≡ loose.additional_info)
service_error_kept_example = service_error_kept loose
