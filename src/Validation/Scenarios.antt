-- ===== src/Validation/Scenarios.antt =====
-- Runs of autorest/validation's `Validate`.
use go_autorest.Prelude.{
  ◌≡◌, ◌≢◌, ◌↔◌, ◌⊎◌, inr, refl, String, Bool, true, false, some, List, [], ◌∷◌, pos, ltb, leb,
  if◌then◌else◌,
}
use go_autorest.Validation.{
  Rule, Constraint, constraint, no_more, also, bool_rule, int_rule, string_rule, Value, nil_pointer,
  pointer, text, struct, int, array, no_field, field, valid, rejected, panics, Element, Bytes,
  last_part, to_int64,
}
use go_autorest.Validation.Unique.{check_for_unique_in_array}
use go_autorest.Validation.Distinct.{Distinct, array-Distinct}
use go_autorest.Validation.Rules.{
  Library, check_string, match_string, less, less_or_equal, check_nil, validate_int, check_int,
  multiple, check_items,
}
use go_autorest.Validation.Validate.{
  validate, validate_one, validate_all, validate_items, validate_pointer, validate_nil,
  validate_chained,
}
use go_autorest.Validation.Bounds.{Parameter, pointer_param, int_param, slice_param}

abbrev lowercase : Bytes → Bool
lowercase [] = true
lowercase (b ∷ bs) = let rest = lowercase bs in if leb 97 b then rest else false

abbrev compile_pattern : String → String ⊎ (Bytes → Bool)
compile_pattern p = inr lowercase

abbrev lib : Library
lib = record { compile = compile_pattern; float_lt = ltb; float_le = leb }

abbrev plain : String → Rule → Constraint
plain name rule = constraint ("params" ∷ "Name" ∷ []) name rule no_more

-- a required name of lower-case letters
abbrev required_name : Constraint
required_name = constraint ("params" ∷ "Name" ∷ []) "Null" (bool_rule true) (
    also (plain "Pattern" (string_rule "^[a-z]+$"))
      (also (plain "MaxLength" (int_rule (pos 5))) no_more))

abbrev params : Bytes → Value
params name = struct (field "Name" (pointer (text name)) no_field)

abbrev no_params : Value
no_params = struct (field "Name" nil_pointer no_field)

accepted : validate lib false ((params (97 ∷ 98 ∷ []), also required_name no_more) ∷ []) ≡ valid
unfolding validate validate_items validate_all validate_one last_part validate_pointer
    validate_chained check_string match_string less_or_equal less
accepted = refl

refused :
    validate lib false ((no_params, also required_name no_more) ∷ [])
    ≡ rejected nil_pointer required_name "value can not be null; required parameter"
unfolding validate validate_items validate_all validate_one last_part validate_nil check_nil
refused = refl

-- a multiple of 0 panics
multiple_of_zero :
    validate lib false ((int (pos 4), also (plain "MultipleOf" (int_rule (pos 0))) no_more) ∷ [])
    ≡ panics
unfolding validate validate_items validate_all validate_one validate_int to_int64 check_int multiple
multiple_of_zero = refl

-- `Null` panics on an array
null_array :
    validate lib false ((array [], also (plain "Null" (bool_rule true)) no_more) ∷ []) ≡ panics
unfolding validate validate_items validate_all validate_one validate_chained check_items
null_array = refl

-- a required name, a count and two items
abbrev parameters : List Parameter
parameters =
    pointer_param true ("Name" ∷ []) 1 5 (some (97 ∷ 98 ∷ []))
    ∷ int_param ("Top" ∷ []) 1 10 (pos 10)
    ∷ slice_param ("Zones" ∷ []) 0 2 (some 3 ∷ some 4 ∷ [])
    ∷ []

abbrev two_items : List Element
two_items = some 3 ∷ some 4 ∷ []

array-Distinct_example :
    (check_for_unique_in_array two_items ≡ some true) ↔ ((two_items ≢ []) × Distinct two_items)
array-Distinct_example = array-Distinct two_items
