-- ===== src/Validation/Rules.antt =====
-- autorest/validation/validation.go: the checks of one constraint on one kind of value.
use go_autorest.Prelude.{
  ℕ, zero, suc, ◌%◌, String, str_eq, Bool, true, false, not, Option, none, some, List, [], ◌∷◌, ℤ,
  pos, negsuc, ltb, ◌==◌, if◌then◌else◌, length, ◌⊎◌, inl, inr,
}
use go_autorest.Validation.{
  Rule, bool_rule, int_rule, float_rule, string_rule, Constraint, Element, Bytes, Value, text, int,
  float, array, nil_slice, slice, nil_map, hash_map, Outcome, valid, rejected, panics, require,
  rule_of, name_of, to_int64,
}
use go_autorest.Validation.Unique.{check_for_unique_in_array, check_for_unique_in_map}

-- What the checks use of Go's libraries: a compiled pattern, or the error of `regexp.Compile`; and
-- the order of float64s, that are given by their bits.
pub record Library : Type 0 where
  pub compile : String → String ⊎ (Bytes → Bool)
  pub float_lt : ℕ → ℕ → Bool
  pub float_le : ℕ → ℕ → Bool

-- `i < j` and `i <= j` of signed integers
unfoldable pub less : ℤ → ℤ → Bool
less (pos m) (pos n) = ltb m n
less (pos m) (negsuc n) = false
less (negsuc m) (pos n) = true
less (negsuc m) (negsuc n) = ltb n m

unfoldable pub less_or_equal : ℤ → ℤ → Bool
less_or_equal i j = not (less j i)

abbrev pub magnitude : ℤ → ℕ
magnitude (pos n) = n
magnitude (negsuc n) = suc n

-- `i%r`, a panic where r is 0; its sign is not needed
unfoldable pub multiple : ℤ → ℤ → Value → Constraint → Outcome
multiple i (pos zero) x v = panics
multiple i (pos (suc n)) x v =
    require (magnitude i % suc n == 0) x v "value must be a multiple of %v"
multiple i (negsuc n) x v = require (magnitude i % suc n == 0) x v "value must be a multiple of %v"

unfoldable pub check_int : ℤ → ℤ → Constraint → Outcome
check_int i r v =
    if str_eq (name_of v) "MultipleOf"
    then multiple i r (int i) v
    else if str_eq (name_of v) "ExclusiveMinimum"
    then require (not (less_or_equal i r)) (int i) v "value must be greater than %v"
    else if str_eq (name_of v) "ExclusiveMaximum"
    then require (not (less_or_equal r i)) (int i) v "value must be less than %v"
    else if str_eq (name_of v) "InclusiveMinimum"
    then require (not (less i r)) (int i) v "value must be greater than or equal to %v"
    else if str_eq (name_of v) "InclusiveMaximum"
    then require (not (less r i)) (int i) v "value must be less than or equal to %v"
    else rejected (int i) v "constraint %v is not applicable for type integer"

unfoldable pub validate_int : ℤ → Constraint → Outcome
validate_int i v = elim (to_int64 (rule_of v)) [
  | none ↦ rejected (int i) v "rule must be integer value for %v constraint; got: %v"
  | some r ↦ check_int i r v
]

unfoldable pub check_nil : Value → Constraint → Outcome
check_nil x v = elim (rule_of v) [
  | bool_rule b ↦ if b then rejected x v "value can not be null; required parameter" else valid
  | _ ↦ rejected x v "rule must be bool value for %v constraint; got: %v"
]

unfoldable pub check_empty : Value → Constraint → Outcome
check_empty x v = elim (rule_of v) [
  | bool_rule b ↦
      if b then rejected x v "value can not be null or empty; required parameter" else valid
  | _ ↦ rejected x v "rule must be bool value for %v constraint; got: %v"
]

-- A case of a switch returns, or leads to the chain.
pub data Case : Type 0 where
  returns : Outcome → Case
  goes_on : Case

abbrev pub or_else : Outcome → Case
or_else valid = goes_on
or_else (rejected x v details) = returns (rejected x v details)
or_else panics = returns panics

-- A limit that the rule must give as an int, and the test of it.
abbrev pub limited : Rule → Value → Constraint → (not_int exceeded : String) → (ℤ → Bool) → Case
limited (int_rule n) x v not_int exceeded meets = or_else (require (meets n) x v exceeded)
limited _ x v not_int exceeded meets = returns (rejected x v not_int)

abbrev pub is_nil : List ℕ → Bool
is_nil [] = true
is_nil (b ∷ bs) = false

unfoldable pub all_match : (Bytes → Bool) → List (Bytes × Element) → Constraint → Case
all_match matches [] v = goes_on
all_match matches ((k, e) ∷ es) v =
    let rest = all_match matches es v in
    if matches k then rest else returns (rejected (text k) v "map key doesn't match pattern %v")

abbrev pub unique_case : Option Bool → Value → Constraint → Case
unique_case none x v = returns panics
unique_case (some b) x v =
    or_else (require b x v "all items in parameter %q must be unique; got:%v")

-- the kinds of `validateArrayMap`: their items, and which of the three it is
pub data Items : Type 0 where
  array_items : List Element → Items
  slice_items : Option (List Element) → Items
  map_items : Option (List (Bytes × Element)) → Items

abbrev pub value_of : Items → Value
value_of (array_items es) = array es
value_of (slice_items none) = nil_slice
value_of (slice_items (some es)) = slice es
value_of (map_items none) = nil_map
value_of (map_items (some es)) = hash_map es

abbrev pub len_of : Items → ℕ
len_of (array_items es) = length es
len_of (slice_items none) = 0
len_of (slice_items (some es)) = length es
len_of (map_items none) = 0
len_of (map_items (some es)) = length es

-- `x.IsNil()`, which panics on an array
abbrev pub items_are_nil : Items → Option Bool
items_are_nil (array_items es) = none
items_are_nil (slice_items none) = some true
items_are_nil (slice_items (some es)) = some false
items_are_nil (map_items none) = some true
items_are_nil (map_items (some es)) = some false

abbrev pub null_case : Option Bool → Value → Constraint → Case
null_case none x v = returns panics
null_case (some true) x v = returns (check_nil x v)
null_case (some false) x v = goes_on

abbrev pub empty_case : Option Bool → ℕ → Value → Constraint → Case
empty_case none n x v = returns panics
empty_case (some b) n x v =
    if b then returns (check_empty x v) else if n == 0 then returns (check_empty x v) else goes_on

abbrev pub unique_items : Items → Option Bool
unique_items (array_items es) = check_for_unique_in_array es
unique_items (slice_items none) = check_for_unique_in_array []
unique_items (slice_items (some es)) = check_for_unique_in_array es
unique_items (map_items none) = check_for_unique_in_map []
unique_items (map_items (some es)) = check_for_unique_in_map es

module _ (lib : Library) where
  -- the cases of `validateFloat`
  unfoldable pub check_float : ℕ → ℕ → Constraint → Outcome
  check_float f r v =
      if str_eq (name_of v) "ExclusiveMinimum"
      then require (not (lib.float_le f r)) (float f) v "value must be greater than %v"
      else if str_eq (name_of v) "ExclusiveMaximum"
      then require (not (lib.float_le r f)) (float f) v "value must be less than %v"
      else if str_eq (name_of v) "InclusiveMinimum"
      then require (not (lib.float_lt f r)) (float f) v "value must be greater than or equal to %v"
      else if str_eq (name_of v) "InclusiveMaximum"
      then require (not (lib.float_lt r f)) (float f) v "value must be less than or equal to %v"
      else rejected (float f) v "constraint %s is not applicable for type float"

  unfoldable pub validate_float : ℕ → Constraint → Outcome
  validate_float f v = elim (rule_of v) [
    | float_rule r ↦ check_float f r v
    | _ ↦ rejected (float f) v "rule must be float value for %v constraint; got: %v"
  ]

  abbrev matched : String ⊎ (Bytes → Bool) → Bytes → Constraint → Case
  matched (inl e) s v = returns (rejected (text s) v e)
  matched (inr matches) s v =
      or_else (require (matches s) (text s) v "value doesn't match pattern %v")

  -- `v.Rule.(string)` panics on any other rule
  unfoldable pub match_string : Rule → Bytes → Constraint → Case
  match_string (string_rule p) s v = matched (lib.compile p) s v
  match_string _ s v = returns panics

  -- the switch of `validateString`
  unfoldable pub check_string : Bytes → Constraint → Case
  check_string s v =
      if str_eq (name_of v) "Empty"
      then (if is_nil s then returns (check_empty (text s) v) else goes_on)
      else if str_eq (name_of v) "Pattern"
      then match_string (rule_of v) s v
      else if str_eq (name_of v) "MaxLength"
      then limited (rule_of v) (text s) v "rule must be integer value for %v constraint; got: %v"
          "value length must be less than or equal to %v" (λ n. less_or_equal (pos (length s)) n)
      else if str_eq (name_of v) "MinLength"
      then limited (rule_of v) (text s) v "rule must be integer value for %v constraint; got: %v"
          "value length must be greater than or equal to %v" (λ n. less_or_equal n (pos (length s)))
      else if str_eq (name_of v) "ReadOnly"
      then or_else
          (require (is_nil s) (text s) v "readonly parameter; must send as nil or empty in request")
      else returns (rejected (text s) v "constraint %s is not applicable to string type")

  abbrev keys_matched : String ⊎ (Bytes → Bool) → Items → Constraint → Case
  keys_matched (inl e) xs v = returns (rejected (value_of xs) v e)
  keys_matched (inr matches) (map_items none) v = goes_on
  keys_matched (inr matches) (map_items (some es)) v = all_match matches es v
  keys_matched (inr matches) (array_items es) v = returns panics
  keys_matched (inr matches) (slice_items es) v = returns panics

  -- `MapKeys` panics on an array and on a slice
  unfoldable pub match_keys : Rule → Items → Constraint → Case
  match_keys (string_rule p) xs v = keys_matched (lib.compile p) xs v
  match_keys _ xs v = returns panics

  -- the switch of `validateArrayMap`
  unfoldable pub check_items : Items → Constraint → Case
  check_items xs v =
      if str_eq (name_of v) "Null"
      then null_case (items_are_nil xs) (value_of xs) v
      else if str_eq (name_of v) "Empty"
      then empty_case (items_are_nil xs) (len_of xs) (value_of xs) v
      else if str_eq (name_of v) "MaxItems"
      then limited (rule_of v) (value_of xs) v "rule must be integer for %v constraint; got: %v"
          "maximum item limit is %v; got: %v" (λ n. less_or_equal (pos (len_of xs)) n)
      else if str_eq (name_of v) "MinItems"
      then limited (rule_of v) (value_of xs) v "rule must be integer for %v constraint; got: %v"
          "minimum item limit is %v; got: %v" (λ n. less_or_equal n (pos (len_of xs)))
      else if str_eq (name_of v) "UniqueItems"
      then unique_case (unique_items xs) (value_of xs) v
      else if str_eq (name_of v) "ReadOnly"
      then or_else (
          require (len_of xs == 0) (value_of xs) v
            "readonly parameter; must send as nil or empty in request")
      else if str_eq (name_of v) "Pattern"
      then match_keys (rule_of v) xs v
      else returns
          (rejected (value_of xs) v "constraint %v is not applicable to array, slice and map type")
