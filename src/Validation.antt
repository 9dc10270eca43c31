-- ===== src/Validation.antt =====
-- autorest/validation/validation.go: parameters are checked against constraints, by reflection.
pub mod Unique
pub mod Distinct
pub mod Rules
pub mod Validate
pub mod Bounds
pub mod Items
mod Scenarios
use go_autorest.Prelude.{ℕ, String, Bool, true, false, Option, none, some, List, [], ◌∷◌, ℤ, pos}

-- `Constraint.Rule`, an `interface{}`. A float64 is its 64 bits.
pub data Rule : Type 0 where
  no_rule : Rule
  bool_rule : Bool → Rule
  int_rule : ℤ → Rule
  int64_rule : ℤ → Rule
  float_rule : ℕ → Rule
  string_rule : String → Rule

-- `target` is split at its dots. `chain` may be nil, which reads as empty.
mutual
  pub data Constraint : Type 0 where
    constraint :
        (target : List String) (name : String) (rule : Rule) (chain : Constraints) → Constraint

  pub data Constraints : Type 0 where
    no_more : Constraints
    also : Constraint → Constraints → Constraints

-- An element of an array, a slice or a map is only a key of a Go map here: the number of its class
-- under `==`, or none for a value that cannot be compared.
abbrev pub Element : Type 0
Element = Option ℕ

-- A string is its bytes.
abbrev pub Bytes : Type 0
Bytes = List ℕ

-- A target value, by its kind. The key of a map's entry is what `reflect.Value.String` gives.
mutual
  pub data Value : Type 0 where
    invalid : Value
    nil_pointer : Value
    pointer : Value → Value
    text : Bytes → Value
    struct : StructFields → Value
    int : ℤ → Value
    float : ℕ → Value
    array : List Element → Value
    nil_slice : Value
    slice : List Element → Value
    nil_map : Value
    hash_map : List (Bytes × Element) → Value
    other : String → Value

  -- the exported fields of a struct
  pub data StructFields : Type 0 where
    no_field : StructFields
    field : String → Value → StructFields → StructFields

-- nil, an error of `createError` with the value and the format of its details, or a panic
pub data Outcome : Type 0 where
  valid : Outcome
  rejected : Value → Constraint → String → Outcome
  panics : Outcome

-- `if !b { return createError(x, v, details) }`
abbrev pub require : Bool → Value → Constraint → String → Outcome
require true x v details = valid
require false x v details = rejected x v details

-- the next check, if this one returns nil
abbrev pub and_then : Outcome → Outcome → Outcome
and_then valid o = o
and_then (rejected x v details) o = rejected x v details
and_then panics o = panics

abbrev pub rule_of : Constraint → Rule
rule_of (constraint t n r ch) = r

abbrev pub name_of : Constraint → String
name_of (constraint t n r ch) = n

abbrev pub target_of : Constraint → List String
target_of (constraint t n r ch) = t

-- `toInt64`
unfoldable pub to_int64 : Rule → Option ℤ
to_int64 (int64_rule i) = some i
to_int64 (int_rule i) = some i
to_int64 _ = none

-- `s[len(s)-1]` of a target's parts
unfoldable pub last_part : List String → String
last_part [] = ""
last_part (p ∷ []) = p
last_part (p ∷ q ∷ ps) = last_part (q ∷ ps)
