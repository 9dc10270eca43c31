-- ===== src/Validation/Bounds.antt =====
-- autorest/validation/validation.go: the constraints that bound the lengths of strings and of
-- slices, and integers, and that require a pointer.
use go_autorest.Prelude.{
  ℕ, ◌≤◌, ◌≡◌, String, false, Bool, Option, none, some, List, [], ◌∷◌, ℤ, pos, negsuc, length,
}
use go_autorest.Validation.{
  constraint, Constraints, no_more, also, bool_rule, int_rule, Value, nil_pointer, pointer, text,
  int, slice, Element, Bytes,
}

-- the two constraints of the names, with a lower and an upper bound
abbrev pub bounds : String → String → List String → ℕ → ℕ → Constraints
bounds least most target lo hi =
    also (constraint target least (int_rule (pos lo)) no_more)
      (also (constraint target most (int_rule (pos hi)) no_more) no_more)

-- A parameter and what is asked of it: a string or a slice of a bounded length, a bounded integer,
-- or a pointer to a string of a bounded length, that may be nil unless it is required.
pub data Parameter : Type 0 where
  string_param : (target : List String) (lo hi : ℕ) (s : Bytes) → Parameter
  pointer_param :
      (required : Bool) (target : List String) (lo hi : ℕ) (s : Option Bytes) → Parameter
  int_param : (target : List String) (lo hi : ℕ) (i : ℤ) → Parameter
  slice_param : (target : List String) (lo hi : ℕ) (es : List Element) → Parameter

abbrev pointed : Option Bytes → Value
pointed none = nil_pointer
pointed (some s) = pointer (text s)

-- the parameter as `Validate` is given it
abbrev pub item_of : Parameter → Value × Constraints
item_of (string_param target lo hi s) = (text s, bounds "MinLength" "MaxLength" target lo hi)
item_of (pointer_param required target lo hi s) = (
  pointed s,
  also (constraint target "Null" (bool_rule required) (bounds "MinLength" "MaxLength" target lo hi))
      no_more,
)
item_of (int_param target lo hi i) =
    (int i, bounds "InclusiveMinimum" "InclusiveMaximum" target lo hi)
item_of (slice_param target lo hi es) = (slice es, bounds "MinItems" "MaxItems" target lo hi)

-- from `lo` to `hi`, both included
abbrev pub Within : ℕ → ℕ → ℤ → Type 0
Within lo hi (pos n) = (lo ≤ n) × (n ≤ hi)
Within lo hi (negsuc n) = ⊥

abbrev pub IsMet : Parameter → Type 0
IsMet (string_param target lo hi s) = Within lo hi (pos (length s))
IsMet (pointer_param required target lo hi none) = required ≡ false
IsMet (pointer_param required target lo hi (some s)) = Within lo hi (pos (length s))
IsMet (int_param target lo hi i) = Within lo hi i
IsMet (slice_param target lo hi es) = Within lo hi (pos (length es))

abbrev pub AreMet : List Parameter → Type 0
AreMet [] = Unit {0}
AreMet (p ∷ ps) = IsMet p × AreMet ps
