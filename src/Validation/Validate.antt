-- ===== src/Validation/Validate.antt =====
-- autorest/validation/validation.go: `Validate`, and the recursion through pointers, structs and
-- chains.
use go_autorest.Prelude.{String, str_eq, Bool, List, [], ◌∷◌, if◌then◌else◌, none, some}
use go_autorest.Validation.{
  Constraint, constraint, Constraints, no_more, also, Value, invalid, nil_pointer, pointer, text,
  struct, int, float, array, nil_slice, slice, nil_map, hash_map, other, StructFields, no_field,
  field, Outcome, valid, rejected, and_then, last_part, name_of, target_of,
}
use go_autorest.Validation.Rules.{
  Library, validate_int, validate_float, check_string, check_items, check_nil, Case, returns,
  goes_on, array_items, slice_items, map_items,
}

-- the end of `validateString` and of `validateArrayMap`: the chain, where the switch is left
abbrev pub with_chain : Case → Outcome → Outcome
with_chain (returns o) chained = o
with_chain goes_on chained = chained

-- `validatePtr` of nil, and of a pointer to `x`, whose chain gives `chained`
unfoldable pub validate_nil : Constraint → Outcome
validate_nil v = if str_eq (name_of v) "ReadOnly" then valid else check_nil nil_pointer v

unfoldable pub validate_pointer : Value → Constraint → Outcome → Outcome
validate_pointer x v chained =
    if str_eq (name_of v) "ReadOnly"
    then rejected x v "readonly parameter; must send as nil or empty in request"
    else chained

-- The loop of `Validate` over the constraints of one value, that `check` checks.
unfoldable pub validate_all : (Constraint → Outcome) → Constraints → Outcome
validate_all check no_more = valid
validate_all check (also v vs) = and_then (check v) (validate_all check vs)

-- `validateString` and `validateArrayMap`, whose chain is validated on the same value, by the same
-- switch.
unfoldable mutual
  pub validate_chained : (Constraint → Case) → Constraint → Outcome
  validate_chained switch (constraint t n r ch) =
      with_chain (switch (constraint t n r ch)) (validate_chain switch ch)

  pub validate_chain : (Constraint → Case) → Constraints → Outcome
  validate_chain switch no_more = valid
  validate_chain switch (also v vs) =
      and_then (validate_chained switch v) (validate_chain switch vs)

abbrev pub chain_of : Constraint → Constraints
chain_of (constraint t n r ch) = ch

module _ (lib : Library) where
  -- One constraint on one value: the switch on `v.Kind()`, `validatePtr` and `validateStruct`.
  unfoldable mutual
    pub validate_one : Value → Constraint → Outcome
    validate_one (pointer x) v = validate_pointer x v (validate_all (validate_one x) (chain_of v))
    validate_one nil_pointer v = validate_nil v
    validate_one (text s) v = validate_chained (check_string lib s) v
    validate_one (struct fs) v = validate_field (struct fs) fs (last_part (target_of v)) v
    validate_one (int i) v = validate_int i v
    validate_one (float f) v = validate_float lib f v
    validate_one (array es) v = validate_chained (check_items lib (array_items es)) v
    validate_one nil_slice v = validate_chained (check_items lib (slice_items none)) v
    validate_one (slice es) v = validate_chained (check_items lib (slice_items (some es))) v
    validate_one nil_map v = validate_chained (check_items lib (map_items none)) v
    validate_one (hash_map es) v = validate_chained (check_items lib (map_items (some es))) v
    validate_one invalid v = rejected invalid v "unknown type %v"
    validate_one (other k) v = rejected (other k) v "unknown type %v"

    -- `FieldByName`, and `Validate` of the field
    pub validate_field : Value → StructFields → String → Constraint → Outcome
    validate_field x no_field name v = rejected x v "field %q doesn't exist"
    validate_field x (field k y fs) name v =
        let rest = validate_field x fs name v in if str_eq k name then validate_one y v else rest

  -- the loop over the items
  unfoldable pub validate_items : List (Value × Constraints) → Outcome
  validate_items [] = valid
  validate_items ((x, vs) ∷ items) =
      and_then (validate_all (validate_one x) vs) (validate_items items)

  -- `Validate`, with the variable `Disabled`
  unfoldable pub validate : Bool → List (Value × Constraints) → Outcome
  validate disabled items = if disabled then valid else validate_items items
