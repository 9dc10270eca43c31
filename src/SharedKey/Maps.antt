-- ===== src/SharedKey/Maps.antt =====
-- Lists that stand for Go's maps, in any order, with distinct keys.
use go_autorest.Prelude.{
  ◌≡◌, ◌≢◌, refl, sym, ap, subst, ◌∙◌, String, some, List, [], ◌∷◌, inl, inr, str_eq, eq_iff,
  if◌then◌else◌, Bool-cases,
}
use mathlib.Core.List.{◌++◌ as append, Permᴰ}
use mathlib.Core.List.Permᴰ.{refl as Permᴰ-refl}
use go_autorest.Adal.Types.{Values, set}
use go_autorest.SharedKey.Canonical.{find, keys_of}

abbrev pub Absent : String → List String → Type 0
Absent k [] = Unit {0}
Absent k (j ∷ js) = (j ≢ k) × Absent k js

abbrev pub Distinct : List String → Type 0
Distinct [] = Unit {0}
Distinct (k ∷ ks) = Absent k ks × Distinct ks

pub Absent-Perm : (k : String) {ks js : List String} → Permᴰ ks js → Absent k ks → Absent k js
Absent-Perm k Permᴰ.nil h = h
Absent-Perm k (Permᴰ.cons e p) (ne, h) = (λ q. ne (e ∙ q), Absent-Perm k p h)
Absent-Perm k (Permᴰ.swap e f) (n, (m, h)) = (λ q. m (f ∙ q), (λ q. n (e ∙ q), h))
Absent-Perm k (Permᴰ.trans p q) h = Absent-Perm k q (Absent-Perm k p h)

pub Distinct-Perm : {ks js : List String} → Permᴰ ks js → Distinct ks → Distinct js
Distinct-Perm Permᴰ.nil h = h
Distinct-Perm (Permᴰ.cons {l₂ = m} e p) (a, h) =
    (subst (λ x. Absent x m) e (Absent-Perm _ p a), Distinct-Perm p h)
Distinct-Perm (Permᴰ.swap {l = l} e f) ((n, a), (b, h)) =
    ((λ q. n (f ∙ sym q ∙ sym e), subst (λ x. Absent x l) f b), (subst (λ x. Absent x l) e a, h))
Distinct-Perm (Permᴰ.trans p q) h = Distinct-Perm q (Distinct-Perm p h)

pub keys_of-Perm {ℓ} :
    {A : Type ℓ} {ps qs : List (String × A)} → Permᴰ ps qs → Permᴰ (keys_of ps) (keys_of qs)
keys_of-Perm Permᴰ.nil = Permᴰ.nil
keys_of-Perm (Permᴰ.cons e p) = Permᴰ.cons (ap (λ x. x.0) e) (keys_of-Perm p)
keys_of-Perm (Permᴰ.swap e f) = Permᴰ.swap (ap (λ x. x.0) e) (ap (λ x. x.0) f)
keys_of-Perm (Permᴰ.trans p q) = Permᴰ.trans (keys_of-Perm p) (keys_of-Perm q)

module _ {ℓ} {A : Type ℓ} (k : String) where
  find-cons :
      (x y : String × A) (ps qs : List (String × A))
      → x ≡ y
      → find k ps ≡ find k qs
      → find k (x ∷ ps) ≡ find k (y ∷ qs)
  unfolding find
  find-cons x y ps qs e ih =
      subst (λ z. find k (x ∷ ps) ≡ find k (z ∷ qs)) e
        (ap (λ r. if str_eq x.0 k then some x.1 else r) ih)

  find-swap :
      (x y : String × A) (ps : List (String × A))
      → y.0 ≢ x.0
      → find k (x ∷ y ∷ ps) ≡ find k (y ∷ x ∷ ps)
  unfolding find
  find-swap x y ps ne = elim (Bool-cases (str_eq x.0 k)) [
    | inl e ↦ elim (Bool-cases (str_eq y.0 k)) [
      | inl f ↦ absurd (ne ((eq_iff y.0 k).0 f ∙ sym ((eq_iff x.0 k).0 e)))
      | inr f ↦ rw e (rw f refl)
    ]
    | inr e ↦ rw e refl
  ]

  -- A map has one value to a key, wherever it stands.
  pub find-Perm :
      {ps qs : List (String × A)} → Permᴰ ps qs → Distinct (keys_of ps) → find k ps ≡ find k qs
  find-Perm Permᴰ.nil h = refl
  find-Perm (Permᴰ.cons e p) (a, h) = find-cons _ _ _ _ e (find-Perm p h)
  find-Perm (Permᴰ.swap {a = x} {b = y} {l = l} e f) ((n, a), h) =
      find-swap x y l n ∙ find-cons y _ (x ∷ l) _ f (find-cons x _ l l e refl)
  find-Perm (Permᴰ.trans p q) h = find-Perm p h ∙ find-Perm q (Distinct-Perm (keys_of-Perm p) h)

pub append-Perm : (us : Values) {vs ws : Values} → Permᴰ vs ws → Permᴰ (append us vs) (append us ws)
append-Perm [] p = p
append-Perm (u ∷ us) p = Permᴰ.cons refl (append-Perm us p)

pub middle-Perm :
    (u : String × String) (us vs : Values) → Permᴰ (append us (u ∷ vs)) (u ∷ append us vs)
middle-Perm u [] vs = Permᴰ-refl (u ∷ vs)
middle-Perm u (x ∷ us) vs =
    Permᴰ.trans (Permᴰ.cons refl (middle-Perm u us vs)) (Permᴰ.swap refl refl)

pub Absent-append :
    (k : String) (us vs : Values) → Absent k (keys_of (append us vs)) → Absent k (keys_of vs)
Absent-append k [] vs h = h
Absent-append k (u ∷ us) vs (n, h) = Absent-append k us vs h

pub set-Perm :
    (k v : String) (cm : Values) → Absent k (keys_of cm) → Permᴰ (set k v cm) ((k, v) ∷ cm)
unfolding set
set-Perm k v [] h = Permᴰ-refl _
set-Perm k v ((j, x) ∷ cm) (n, h) = elim (Bool-cases (str_eq j k)) [
  | inl e ↦ absurd (n ((eq_iff j k).0 e))
  | inr e ↦ rw e (Permᴰ.trans (Permᴰ.cons refl (set-Perm k v cm h)) (Permᴰ.swap refl refl))
]
