-- ===== src/Validation/Items.antt =====
-- autorest/validation/validation.go: `Validate` of one list of items after another.
use go_autorest.Prelude.{◌≡◌, refl, ◌∙◌, sym, ap, Bool, true, false, List, [], ◌∷◌, ◌++◌}
use go_autorest.Validation.{Constraints, Value, Outcome, valid, rejected, panics, and_then}
use go_autorest.Validation.Rules.{Library}
use go_autorest.Validation.Validate.{validate_all, validate_one, validate_items, validate}

pub and_then-left : (o p : Outcome) → and_then o p ≡ valid → o ≡ valid
and_then-left valid p e = refl
and_then-left (rejected x v d) p e = e
and_then-left panics p e = e

pub and_then-right : (o p : Outcome) → and_then o p ≡ valid → p ≡ valid
and_then-right valid p e = e
and_then-right (rejected x v d) p e = cc
and_then-right panics p e = cc

and_then_assoc : (o p q : Outcome) → and_then (and_then o p) q ≡ and_then o (and_then p q)
and_then_assoc valid p q = refl
and_then_assoc (rejected x v d) p q = refl
and_then_assoc panics p q = refl

module _ (lib : Library) where
  -- `Validate` of two lists of parameters, one after the other, validates the first list, and the
  -- second only where the first is accepted: the first failure is the one that is returned.
  pub validate-append :
      (disabled : Bool) (items more : List (Value × Constraints))
      → validate lib disabled (items ++ more)
        ≡ and_then (validate lib disabled items) (validate lib disabled more)
  unfolding validate validate_items
  validate-append true items more = refl
  validate-append false [] more = refl
  validate-append false ((x, vs) ∷ items) more =
      ap (and_then (validate_all (validate_one lib x) vs)) (validate-append false items more)
      ∙ sym (
          and_then_assoc (validate_all (validate_one lib x) vs) (validate_items lib items)
            (validate_items lib more))
