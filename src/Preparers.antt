-- ===== src/Preparers.antt =====
-- autorest/preparer.go: preparers of requests and how decorators are composed.
pub mod Text
pub mod Outgoing
pub mod Templates
pub mod Queries
pub mod ClientIds
mod Scenarios
use go_autorest.Prelude.{Option, none, some, List, [], ◌∷◌}
use go_autorest.Errors.{new_error}
use go_autorest.Result.{Result, ok, err}

abbrev pub Preparer : Type 0 → Type 0
Preparer R = R → Result R

abbrev pub PrepareDecorator : Type 0 → Type 0
PrepareDecorator R = Preparer R → Preparer R

unfoldable pub decorate_preparer :
    {R : Type 0} → Preparer R → List (PrepareDecorator R) → Preparer R
decorate_preparer p [] = p
decorate_preparer p (decorate ∷ decorators) = decorate_preparer (decorate p) decorators

unfoldable pub create_preparer : {R : Type 0} → List (PrepareDecorator R) → Preparer R
unfolding decorate_preparer
create_preparer decorators = decorate_preparer (λ r. ok r) decorators

-- `none` is a nil request
unfoldable pub prepare : {R : Type 0} → Option R → List (PrepareDecorator R) → Result R
unfolding create_preparer
prepare none decorators = err (new_error "autorest" "Prepare" "Invoked without an http.Request" [])
prepare (some r) decorators = create_preparer decorators r
