-- ===== src/Validation/Unique.antt =====
-- autorest/validation/validation.go: `checkForUniqueInArray` and `checkForUniqueInMap`.
use go_autorest.Prelude.{
  ℕ, Bool, true, false, Option, none, some, List, [], ◌∷◌, ◌==◌, if◌then◌else◌, map,
}
use go_autorest.Validation.{Element, Bytes}

-- `m[val]` of the values seen so far
unfoldable pub seen_before : ℕ → List ℕ → Bool
seen_before n [] = false
seen_before n (m ∷ seen) = let rest = seen_before n seen in if n == m then true else rest

-- The loop over the elements: none where an element panics as the key of a map.
unfoldable pub unique_from : List ℕ → List Element → Option Bool
unique_from seen [] = some true
unique_from seen (none ∷ es) = none
unique_from seen (some n ∷ es) =
    let rest = unique_from (n ∷ seen) es in if seen_before n seen then some false else rest

-- The test of `x` against the zero of its type is never true: it compares `reflect.Value`s.
unfoldable pub check_for_unique_in_array : List Element → Option Bool
check_for_unique_in_array [] = some false
check_for_unique_in_array (e ∷ es) = unique_from [] (e ∷ es)

abbrev pub entry_element : Bytes × Element → Element
entry_element (k, e) = e

unfoldable pub check_for_unique_in_map : List (Bytes × Element) → Option Bool
check_for_unique_in_map [] = some false
check_for_unique_in_map (e ∷ es) = unique_from [] (map entry_element (e ∷ es))
