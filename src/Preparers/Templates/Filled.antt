-- ===== src/Preparers/Templates/Filled.antt =====
-- Paths and base URLs with parameters: what all of them put in gives, in any order of the map.
use go_autorest.Prelude.{
  String, true, ◌≡◌, refl, sym, ap, subst, ◌∙◌, Option, none, some, List, [], ◌∷◌, map, str_eq,
  Bool-cases, inl, inr,
}
use mathlib.Core.List.{Permᴰ}
use go_autorest.SharedKey.Canonical.{find, keys_of}
use go_autorest.SharedKey.Maps.{Distinct, find-Perm}
use go_autorest.Preparers.Outgoing.{Mapped}
use go_autorest.Preparers.Templates.{substitute}
use go_autorest.Preparers.Templates.Pieces.{
  Piece, lit, slot, print, is_plain, fill_one, IsPlain, AllPlain, replace_all-print,
}

abbrev pub filled : String → Option String → Piece
filled k none = slot k
filled k (some v) = lit v

-- every name replaced by the value that the map has for it, and kept where it has none
abbrev pub fill : Mapped String → Piece → Piece
fill ps (lit s) = lit s
fill ps (slot k) = filled k (find k ps)

-- names and values without braces
abbrev pub ArePlain : Mapped String → Type 0
ArePlain [] = Unit {0}
ArePlain ((k, v) ∷ ps) = (is_plain k ≡ true) × (is_plain v ≡ true) × ArePlain ps

fill-nil : (xs : List Piece) → map (fill []) xs ≡ xs
unfolding find
fill-nil [] = refl
fill-nil (lit s ∷ xs) = ap (λ ys. lit s ∷ ys) (fill-nil xs)
fill-nil (slot k ∷ xs) = ap (λ ys. slot k ∷ ys) (fill-nil xs)

fill-cons :
    (k v : String) (ps : Mapped String) (x : Piece)
    → fill ps (fill_one k v x) ≡ fill ((k, v) ∷ ps) x
unfolding find
fill-cons k v ps (lit s) = refl
fill-cons k v ps (slot j) = elim (Bool-cases (str_eq k j)) [ inl e ↦ rw e refl | inr e ↦ rw e refl ]

map-fill :
    (k v : String) (ps : Mapped String) (xs : List Piece)
    → map (fill ps) (map (fill_one k v) xs) ≡ map (fill ((k, v) ∷ ps)) xs
map-fill k v ps [] = refl
map-fill k v ps (x ∷ xs) =
    ap (λ y. y ∷ map (fill ps) (map (fill_one k v) xs)) (fill-cons k v ps x)
    ∙ ap (λ ys. fill ((k, v) ∷ ps) x ∷ ys) (map-fill k v ps xs)

pub fill_one-IsPlain :
    (k v : String) (x : Piece) → is_plain v ≡ true → IsPlain x → IsPlain (fill_one k v x)
fill_one-IsPlain k v (lit s) p h = h
fill_one-IsPlain k v (slot j) p h = elim (Bool-cases (str_eq k j)) [
  | inl e ↦ rw e p
  | inr e ↦ rw e h
]

fill_one-AllPlain :
    (k v : String) (xs : List Piece)
    → is_plain v ≡ true
    → AllPlain xs
    → AllPlain (map (fill_one k v) xs)
fill_one-AllPlain k v [] p h = tt
fill_one-AllPlain k v (x ∷ xs) p (q, h) = (fill_one-IsPlain k v x p q, fill_one-AllPlain k v xs p h)

-- every name is replaced by the first value that the parameters have for it
pub substitute-fills :
    (ps : Mapped String) (xs : List Piece)
    → ArePlain ps
    → AllPlain xs
    → substitute ps (print xs) ≡ print (map (fill ps) xs)
unfolding substitute
substitute-fills [] xs h p = sym (ap print (fill-nil xs))
substitute-fills ((k, v) ∷ ps) xs (kp, vp, h) p =
    ap (λ t. substitute ps t) (replace_all-print k v xs kp p)
    ∙ substitute-fills ps (map (fill_one k v) xs) h (fill_one-AllPlain k v xs vp p)
    ∙ ap print (map-fill k v ps xs)

ArePlain-swap :
    (x y : String × String) (ps : Mapped String) → ArePlain (x ∷ y ∷ ps) → ArePlain (y ∷ x ∷ ps)
ArePlain-swap x y ps (k, v, (j, w, h)) = (j, w, (k, v, h))

ArePlain-Perm : {ps qs : Mapped String} → Permᴰ ps qs → ArePlain ps → ArePlain qs
ArePlain-Perm Permᴰ.nil h = h
ArePlain-Perm (Permᴰ.cons {l₂ = m} e p) (k, v, h) =
    subst (λ x. ArePlain (x ∷ m)) e (k, v, ArePlain-Perm p h)
ArePlain-Perm (Permᴰ.swap {a = x} {b = y} {a' = v} {l = l} e f) h =
    subst (λ z. ArePlain (v ∷ z ∷ l)) e
      (subst (λ z. ArePlain (z ∷ x ∷ l)) f (ArePlain-swap x y l h))
ArePlain-Perm (Permᴰ.trans p q) h = ArePlain-Perm q (ArePlain-Perm p h)

fill-Perm :
    {ps qs : Mapped String} (x : Piece)
    → Permᴰ ps qs
    → Distinct (keys_of ps)
    → fill ps x ≡ fill qs x
fill-Perm (lit s) p d = refl
fill-Perm (slot k) p d = ap (filled k) (find-Perm k p d)

map-fill-Perm :
    {ps qs : Mapped String} (xs : List Piece)
    → Permᴰ ps qs
    → Distinct (keys_of ps)
    → map (fill ps) xs ≡ map (fill qs) xs
map-fill-Perm [] p d = refl
map-fill-Perm {ps = ps} {qs = qs} (x ∷ xs) p d =
    ap (λ y. y ∷ map (fill ps) xs) (fill-Perm x p d)
    ∙ ap (λ ys. fill qs x ∷ ys) (map-fill-Perm xs p d)

-- A template of texts and names in braces, where neither the texts, the names nor the parameters'
-- values have braces of their own, and the parameters' names are distinct: putting in the
-- parameters, one after the other in whatever order the map is ranged over, replaces every name by
-- its value, and keeps a name that has none.
pub substitute-Perm :
    (ps qs : Mapped String) (xs : List Piece)
    → Permᴰ ps qs
    → Distinct (keys_of ps)
    → ArePlain ps
    → AllPlain xs
    → substitute qs (print xs) ≡ print (map (fill ps) xs)
substitute-Perm ps qs xs p d h q =
    substitute-fills qs xs (ArePlain-Perm p h) q ∙ ap print (sym (map-fill-Perm xs p d))
