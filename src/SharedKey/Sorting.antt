-- ===== src/SharedKey/Sorting.antt =====
-- The Go library's functions on texts that autorest/authorization_storage.go uses, and laws of
-- `sort.Strings`.
use Prim.Native.Char.{code}
use Prim.Native.String.{◌++◌ as concat}
use go_autorest.Prelude.{
  ◌≡◌, refl, ap, subst, ◌∙◌, String, Bool, true, false, ◌&&◌, ◌||◌, List, [], ◌∷◌, ltb, ◌==◌,
  if◌then◌else◌, str_eq, arith, Bool-cases, inl, inr,
}
use mathlib.Core.List.{Permᴰ}
use text.Mathlib.TextEquality.{Char-path}

-- the order of strings by their bytes, which is that by their characters
unfoldable pub str_le : String → String → Bool
str_le String.[] t = true
str_le (String.◌∷◌ c s) String.[] = false
str_le (String.◌∷◌ c s) (String.◌∷◌ d t) = ltb (code c) (code d) || (code c == code d && str_le s t)

unfoldable pub insert_string : String → List String → List String
insert_string x [] = x ∷ []
insert_string x (y ∷ ys) = if str_le x y then x ∷ y ∷ ys else y ∷ insert_string x ys

-- sort.Strings
unfoldable pub sort_strings : List String → List String
sort_strings [] = []
sort_strings (x ∷ xs) = insert_string x (sort_strings xs)

-- strings.Join
unfoldable pub join : List String → String → String
join [] sep = ""
join (x ∷ []) sep = x
join (x ∷ y ∷ ys) sep = concat x (concat sep (join (y ∷ ys) sep))

-- strings.HasPrefix
unfoldable pub has_prefix : String → String → Bool
has_prefix s String.[] = true
has_prefix String.[] (String.◌∷◌ d t) = false
has_prefix (String.◌∷◌ c s) (String.◌∷◌ d t) = code c == code d && has_prefix s t

-- strings.TrimSuffix
unfoldable pub trim_suffix : String → String → String
trim_suffix String.[] t = ""
trim_suffix (String.◌∷◌ c s) t =
    let rest = trim_suffix s t in if str_eq (String.◌∷◌ c s) t then "" else String.◌∷◌ c rest

str_le-antisym : (s t : String) → str_le s t ≡ true → str_le t s ≡ true → s ≡ t
unfolding str_le
str_le-antisym String.[] String.[] a b = refl
str_le-antisym String.[] (String.◌∷◌ d t) a b = absurd (cc)
str_le-antisym (String.◌∷◌ c s) String.[] a b = absurd (cc)
str_le-antisym (String.◌∷◌ c s) (String.◌∷◌ d t) a b =
    let e : code c ≡ code d = ground arith in
    let p : str_le s t ≡ true = ground arith in
    let q : str_le t s ≡ true = ground arith in
    let r = Char-path c d e in let u = str_le-antisym s t p q in cc

str_le-total : (s t : String) → str_le s t ≡ false → str_le t s ≡ true
unfolding str_le
str_le-total String.[] t a = absurd (cc)
str_le-total (String.◌∷◌ c s) String.[] a = refl
str_le-total (String.◌∷◌ c s) (String.◌∷◌ d t) a = let ih = str_le-total s t in ground arith

str_le_trans : (s t u : String) → str_le s t ≡ true → str_le t u ≡ true → str_le s u ≡ true
unfolding str_le
str_le_trans String.[] t u a b = refl
str_le_trans (String.◌∷◌ c s) String.[] u a b = absurd (cc)
str_le_trans (String.◌∷◌ c s) (String.◌∷◌ d t) String.[] a b = absurd (cc)
str_le_trans (String.◌∷◌ c s) (String.◌∷◌ d t) (String.◌∷◌ e u) a b =
    let ih = str_le_trans s t u in ground arith

insert_string_comm :
    (x y : String) (l : List String)
    → insert_string x (insert_string y l) ≡ insert_string y (insert_string x l)
unfolding insert_string
insert_string_comm x y [] =
    let a = str_le-antisym x y in
    let b = str_le-total x y in
    elim (Bool-cases (str_le x y)) [
      | inl p ↦ elim (Bool-cases (str_le y x)) [
        | inl q ↦ rw (a p q) refl
        | inr q ↦ rw p (rw q refl)
      ]
      | inr p ↦ rw p (rw (b p) refl)
    ]
insert_string_comm x y (z ∷ l) =
    let ih = insert_string_comm x y l in
    let a = str_le-antisym x y in
    let b = str_le-total x y in
    let c = str_le_trans x y z in
    let d = str_le_trans y x z in
    elim (Bool-cases (str_le x y)) [
      | inl p ↦ elim (Bool-cases (str_le y x)) [
        | inl q ↦
            subst
              (λ u.
                insert_string x (insert_string u (z ∷ l))
                ≡ insert_string u (insert_string x (z ∷ l)))
              (a p q) refl
        | inr q ↦ ground arith
      ]
      | inr p ↦ ground arith
    ]

pub sort_strings-Perm : {xs ys : List String} → Permᴰ xs ys → sort_strings xs ≡ sort_strings ys
unfolding sort_strings
sort_strings-Perm Permᴰ.nil = refl
sort_strings-Perm (Permᴰ.cons {a = x} e p) =
    let ih = sort_strings-Perm p in rw e (ap (insert_string _) ih)
sort_strings-Perm (Permᴰ.swap e f) = rw e (rw f (insert_string_comm _ _ _))
sort_strings-Perm (Permᴰ.trans p q) = sort_strings-Perm p ∙ sort_strings-Perm q
