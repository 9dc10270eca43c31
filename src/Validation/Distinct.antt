-- ===== src/Validation/Distinct.antt =====
-- autorest/validation/validation.go: what the tests for unique items find.
use go_autorest.Prelude.{
  ℕ, Bool, true, false, Option, none, some, List, [], ◌∷◌, if◌then◌else◌, ◌≡◌, ◌≢◌, refl, ◌↔◌,
  arith,
}
use go_autorest.Validation.{Element}
use go_autorest.Validation.Unique.{seen_before, unique_from, check_for_unique_in_array}

-- `n` is none of the elements.
abbrev pub Absent : ℕ → List Element → Type 0
Absent n [] = Unit {0}
Absent n (e ∷ es) = (e ≢ some n) × Absent n es

-- The elements can all be compared, and no two are equal.
pub data Distinct : List Element → Type 0 where
  distinct_nil : Distinct []
  distinct_cons : {n : ℕ} {es : List Element} → Absent n es → Distinct es → Distinct (some n ∷ es)

-- None of the values is among the elements.
abbrev Clear : List ℕ → List Element → Type 0
Clear [] es = Unit {0}
Clear (n ∷ seen) es = Absent n es × Clear seen es

unless-seen :
    (b : Bool) (r : Option Bool)
    → (if b then some false else r) ≡ some true
    → (b ≡ false) × (r ≡ some true)
unless-seen true r e = cc
unless-seen false r e = (refl, e)

Clear-nil : (seen : List ℕ) → Clear seen []
Clear-nil [] = tt
Clear-nil (n ∷ seen) = (tt, Clear-nil seen)

Clear-unseen :
    (n : ℕ) (seen : List ℕ) (es : List Element)
    → seen_before n seen ≡ false
    → Clear seen es
    → Clear seen (some n ∷ es)
unfolding seen_before
Clear-unseen n [] es e c = tt
Clear-unseen n (m ∷ seen) es e (a, c) =
    ((λ p. grind arith, a), Clear-unseen n seen es (grind arith) c)

Clear-rest : (e : Element) (seen : List ℕ) (es : List Element) → Clear seen (e ∷ es) → Clear seen es
Clear-rest e [] es c = tt
Clear-rest e (m ∷ seen) es ((d, a), c) = (a, Clear-rest e seen es c)

unseen-Clear :
    (n : ℕ) (seen : List ℕ) (es : List Element)
    → Clear seen (some n ∷ es)
    → seen_before n seen ≡ false
unfolding seen_before
unseen-Clear n [] es c = refl
unseen-Clear n (m ∷ seen) es ((d, a), c) = grind (arith, unseen-Clear n seen es c)

unique_from-Distinct :
    (seen : List ℕ) (es : List Element)
    → unique_from seen es ≡ some true
    → Distinct es × Clear seen es
unfolding unique_from
unique_from-Distinct seen [] e = (distinct_nil, Clear-nil seen)
unique_from-Distinct seen (none ∷ es) e = cc
unique_from-Distinct seen (some n ∷ es) e =
    let (unseen, rest) = unless-seen (seen_before n seen) (unique_from (n ∷ seen) es) e in
    let (distinct, clear) = unique_from-Distinct (n ∷ seen) es rest in
    (distinct_cons clear.0 distinct, Clear-unseen n seen es unseen clear.1)

Distinct-unique_from :
    (seen : List ℕ) (es : List Element)
    → Distinct es
    → Clear seen es
    → unique_from seen es ≡ some true
unfolding unique_from
Distinct-unique_from seen [] d c = refl
Distinct-unique_from seen (none ∷ es) d c = elim d [ ]
Distinct-unique_from seen (some n ∷ es) (distinct_cons a d) c = rw (
  unseen-Clear n seen es c,
  Distinct-unique_from (n ∷ seen) es d (a, Clear-rest (some n) seen es c),
)

array_Distinct :
    (es : List Element) → check_for_unique_in_array es ≡ some true → (es ≢ []) × Distinct es
unfolding check_for_unique_in_array
array_Distinct [] p = cc
array_Distinct (e ∷ es) p = (λ q. cc, (unique_from-Distinct [] (e ∷ es) p).0)

Distinct-array :
    (es : List Element) → (es ≢ []) × Distinct es → check_for_unique_in_array es ≡ some true
unfolding check_for_unique_in_array
Distinct-array [] (nonempty, d) = absurd (nonempty refl)
Distinct-array (e ∷ es) (nonempty, d) = Distinct-unique_from [] (e ∷ es) d tt

-- An array or a slice passes the test for unique items exactly where it has an item, all of its
-- items can be compared, and no two are equal: an empty one fails the test.
pub array-Distinct :
    (es : List Element) → (check_for_unique_in_array es ≡ some true) ↔ ((es ≢ []) × Distinct es)
array-Distinct es = (array_Distinct es, Distinct-array es)
