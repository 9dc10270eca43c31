-- ===== src/ServiceErrors.antt =====
-- autorest/azure/azure.go: `ServiceError.UnmarshalJSON`, which decodes error objects that do not
-- keep to OData v4.
pub mod Kept
mod Scenarios
use go_autorest.Prelude.{String, Option, none, some, List, [], ◌∷◌, Bool}
use go_autorest.Json.{Json, null, str, arr, obj, Items, nil, cons, Fields, end, field}
use go_autorest.Errors.{ServiceError}
use go_autorest.Platform.{Platform, Decoded, decoded, malformed, ServiceErrorInternal}

-- the loop of `arrayOfObjs`
unfoldable pub objects : Items → Option (List Fields)
objects nil = some []
objects (cons (obj fs) items) = elim (objects items) [ none ↦ none | some rest ↦ some (fs ∷ rest) ]
objects (cons _ items) = none

unfoldable pub array_of_objs : Json → Option (List Fields)
unfolding objects
array_of_objs (arr items) = objects items
array_of_objs _ = none

abbrev pub items_of : List Fields → Items
items_of [] = nil
items_of (fs ∷ rest) = cons (obj fs) (items_of rest)

-- the branches for `Details`
unfoldable pub convert_details : Option (List Fields) → Json → Option (List Fields)
convert_details (some c) v = some c
convert_details none (obj c) = some (c ∷ [])
convert_details none null = none
convert_details none v = some (field "raw" v end ∷ [])

abbrev pub only_or_multi : List Fields → Fields
only_or_multi (c ∷ []) = c
only_or_multi cs = field "multi" (arr (items_of cs)) end

-- the branches for `InnerError` after the one for an object
unfoldable pub convert_inner_rest : Option (List Fields) → Json → Option Fields
convert_inner_rest (some cs) v = some (only_or_multi cs)
convert_inner_rest none (str c) = some (field "error" (str c) end)
convert_inner_rest none null = none
convert_inner_rest none v = some (field "raw" v end)

unfoldable pub convert_inner : Json → Option Fields
unfolding convert_inner_rest array_of_objs
convert_inner (obj c) = some c
convert_inner v = convert_inner_rest (array_of_objs v) v

unfoldable pub service_error_of : ServiceErrorInternal → ServiceError
unfolding convert_details convert_inner array_of_objs
service_error_of sei = record {
  code = sei.code;
  message = sei.message;
  target = sei.target;
  details = convert_details (array_of_objs sei.details) sei.details;
  inner_error = convert_inner sei.inner_error;
  additional_info = sei.additional_info;
}

unfoldable pub unmarshal_service_error : Platform → String → Decoded ServiceError
unfolding service_error_of
unmarshal_service_error p b = elim (p.unmarshal_internal b) [
  | malformed e ↦ malformed e
  | decoded sei ↦ decoded (service_error_of sei)
]
