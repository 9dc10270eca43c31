-- ===== src/ServiceErrors/Kept.antt =====
-- What decoding makes of the details and the inner error of an error object.
use go_autorest.Prelude.{
  String, Bool, true, false, ◌≡◌, refl, subst, inl, inr, Option, Option-cases, none, some, List, [],
  ◌∷◌, arith,
}
use go_autorest.Json.{Json, null, bool, num, str, arr, obj, Items, nil, cons, Fields, end, field}
use go_autorest.Platform.{ServiceErrorInternal}
use go_autorest.ServiceErrors.{
  objects, array_of_objs, items_of, only_or_multi, convert_details, convert_inner,
  convert_inner_rest, service_error_of,
}

abbrev pub is_object : Json → Bool
is_object (obj fs) = true
is_object _ = false

items_of-objects : (xs : Items) (cs : List Fields) → objects xs ≡ some cs → items_of cs ≡ xs
unfolding objects
items_of-objects nil cs h = ground arith
items_of-objects (cons (obj fs) xs) cs h = go (objects xs) (items_of-objects xs) h
  where
    go :
        (o : Option (List Fields))
        → ((ds : List Fields) → o ≡ some ds → items_of ds ≡ xs)
        → (elim o [ none ↦ none | some rest ↦ some (fs ∷ rest) ]) ≡ some cs
        → items_of cs ≡ cons (obj fs) xs
    go none f e = cc
    go (some rest) f e = cc (f rest refl)
items_of-objects (cons _ xs) cs h = cc

-- an item of the array is no object
pub data IsMixed : Items → Type 0 where
  here : (v : Json) (xs : Items) → is_object v ≡ false → IsMixed (cons v xs)
  there : (v : Json) (xs : Items) → IsMixed xs → IsMixed (cons v xs)

-- A value that is neither null nor text nor an object nor an array of objects.
pub data IsRaw : Json → Type 0 where
  boolean : (b : Bool) → IsRaw (bool b)
  number : (n : String) → IsRaw (num n)
  mixed : (xs : Items) → IsMixed xs → IsRaw (arr xs)

-- The details that stand for a value: the objects of an array of objects, in order; an object
-- alone; any other value but null, whole, under "raw".
pub data AreDetails : Json → Option (List Fields) → Type 0 where
  no_details : AreDetails null none
  objects_given : (cs : List Fields) → AreDetails (arr (items_of cs)) (some cs)
  object_given : (c : Fields) → AreDetails (obj c) (some (c ∷ []))
  text_given : (s : String) → AreDetails (str s) (some (field "raw" (str s) end ∷ []))
  raw_given : (v : Json) → IsRaw v → AreDetails v (some (field "raw" v end ∷ []))

-- The inner error that stands for a value: an object, or the only one of an array; any other array
-- of objects, whole, under "multi"; text under "error"; any other value but null, whole, under
-- "raw".
pub data IsInnerError : Json → Option Fields → Type 0 where
  no_inner : IsInnerError null none
  object_inner : (c : Fields) → IsInnerError (obj c) (some c)
  only_inner : (c : Fields) → IsInnerError (arr (items_of (c ∷ []))) (some c)
  empty_inner : IsInnerError (arr nil) (some (field "multi" (arr nil) end))
  several_inner :
      (c d : Fields) (cs : List Fields)
      → IsInnerError
          (arr (items_of (c ∷ d ∷ cs)))
          (some (field "multi" (arr (items_of (c ∷ d ∷ cs))) end))
  text_inner : (s : String) → IsInnerError (str s) (some (field "error" (str s) end))
  raw_inner : (v : Json) → IsRaw v → IsInnerError v (some (field "raw" v end))

objects-IsMixed : (xs : Items) → objects xs ≡ none → IsMixed xs
unfolding objects
objects-IsMixed nil h = absurd (cc)
objects-IsMixed (cons null xs) h = here null xs refl
objects-IsMixed (cons (bool b) xs) h = here (bool b) xs refl
objects-IsMixed (cons (num n) xs) h = here (num n) xs refl
objects-IsMixed (cons (str s) xs) h = here (str s) xs refl
objects-IsMixed (cons (arr ys) xs) h = here (arr ys) xs refl
objects-IsMixed (cons (obj fs) xs) h = there (obj fs) xs (elim (Option-cases (objects xs)) [
  | inl e ↦ objects-IsMixed xs e
  | inr (cs, e) ↦ let k = rw e at h in absurd (cc)
])

details_array :
    (xs : Items) (o : Option (List Fields))
    → objects xs ≡ o
    → AreDetails (arr xs) (convert_details o (arr xs))
unfolding convert_details
details_array xs none e = raw_given (arr xs) (mixed xs (objects-IsMixed xs e))
details_array xs (some cs) e =
    subst (λ ys. AreDetails (arr ys) (some cs)) (items_of-objects xs cs e) (objects_given cs)

convert-AreDetails : (v : Json) → AreDetails v (convert_details (array_of_objs v) v)
unfolding convert_details array_of_objs
convert-AreDetails null = no_details
convert-AreDetails (bool b) = raw_given (bool b) (boolean b)
convert-AreDetails (num n) = raw_given (num n) (number n)
convert-AreDetails (str s) = text_given s
convert-AreDetails (arr xs) = details_array xs (objects xs) refl
convert-AreDetails (obj fs) = object_given fs

objects-IsInnerError :
    (cs : List Fields) → IsInnerError (arr (items_of cs)) (some (only_or_multi cs))
objects-IsInnerError [] = empty_inner
objects-IsInnerError (c ∷ []) = only_inner c
objects-IsInnerError (c ∷ d ∷ cs) = several_inner c d cs

inner_array :
    (xs : Items) (o : Option (List Fields))
    → objects xs ≡ o
    → IsInnerError (arr xs) (convert_inner_rest o (arr xs))
unfolding convert_inner_rest
inner_array xs none e = raw_inner (arr xs) (mixed xs (objects-IsMixed xs e))
inner_array xs (some cs) e =
    subst (λ ys. IsInnerError (arr ys) (some (only_or_multi cs))) (items_of-objects xs cs e)
      (objects-IsInnerError cs)

convert-IsInnerError : (v : Json) → IsInnerError v (convert_inner v)
unfolding convert_inner convert_inner_rest array_of_objs
convert-IsInnerError null = no_inner
convert-IsInnerError (bool b) = raw_inner (bool b) (boolean b)
convert-IsInnerError (num n) = raw_inner (num n) (number n)
convert-IsInnerError (str s) = text_inner s
convert-IsInnerError (arr xs) = inner_array xs (objects xs) refl
convert-IsInnerError (obj fs) = object_inner fs

-- For any decoded members, the details of the service error are none for null, the objects of an
-- array of objects in their order, an object alone, and any other value whole under "raw". Its
-- inner error is none for null, an object itself, the object of an array of one object, any other
-- array of objects whole under "multi", a text under "error", and any other value whole under
-- "raw". The code, message, target and additional information are those given.
pub service_error_kept :
    (sei : ServiceErrorInternal)
    → let se = service_error_of sei in
      AreDetails sei.details se.details
      × IsInnerError sei.inner_error se.inner_error
      × (se.code ≡ sei.code)
      × (se.message ≡ sei.message)
      × (se.target ≡ sei.target)
      × (se.additional_info ≡ sei.additional_info)
unfolding service_error_of
service_error_kept sei =
    (convert-AreDetails sei.details, convert-IsInnerError sei.inner_error, refl, refl, refl, refl)
