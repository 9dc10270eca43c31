-- ===== src/SharedKey/Orderless.antt =====
-- autorest/authorization_storage.go: what is signed does not depend on the order of Go's maps.
use go_autorest.Prelude.{
  ◌≡◌, refl, ap, subst, String, List, [], ◌∷◌, inl, inr, if◌then◌else◌, Bool-cases,
}
use mathlib.Core.List.{◌++◌ as append, append-nil, Permᴰ}
use mathlib.Core.List.Perm
use mathlib.Core.List.Permᴰ.{refl as Permᴰ-refl, symm as Permᴰ-symm}
use go_autorest.Adal.Types.{Values, set}
use go_autorest.SharedKey.Sorting.{sort_strings, sort_strings-Perm, has_prefix, trim_suffix}
use go_autorest.SharedKey.Maps.{
  Distinct, Distinct-Perm, keys_of-Perm, find-Perm, append-Perm, middle-Perm, Absent-append,
  set-Perm,
}
use go_autorest.SharedKey.Canonical.{
  SharedKeyType, shared_key, shared_key_for_table, shared_key_lite, shared_key_lite_for_table,
  unsupported, Header, Params, Library, find, comp_of, keys_of, complete_params, query_part,
  collect, header_lines, headers_of, build_canonicalized_header,
}

-- the header lines and the parameters read the map by its keys
header_lines-same :
    (cm cm' : Values) (ks : List String)
    → ((k : String) → find k cm ≡ find k cm')
    → header_lines cm ks ≡ header_lines cm' ks
header_lines-same cm cm' [] h = refl
header_lines-same cm cm' (k ∷ ks) h = rw (h k) (rw (header_lines-same cm cm' ks h) refl)

complete_params-same :
    (ps qs : Params) (ks : List String)
    → ((k : String) → find k ps ≡ find k qs)
    → complete_params ps ks ≡ complete_params qs ks
complete_params-same ps qs [] h = refl
complete_params-same ps qs (k ∷ ks) h = rw (h k) (rw (complete_params-same ps qs ks h) refl)

headers_of-lines :
    (cm : Values) → headers_of cm ≡ trim_suffix (header_lines cm (sort_strings (keys_of cm))) "\n"
unfolding sort_strings trim_suffix
headers_of-lines [] = refl
headers_of-lines (v ∷ vs) = refl

headers_of-Perm :
    {cm cm' : Values} → Permᴰ cm cm' → Distinct (keys_of cm) → headers_of cm ≡ headers_of cm'
headers_of-Perm {cm} {cm'} p h = rw (headers_of-lines cm) (
    rw (headers_of-lines cm') (
      rw (sort_strings-Perm (keys_of-Perm p))
        (rw (header_lines-same cm cm' (sort_strings (keys_of cm')) (λ k. find-Perm k p h)) refl)))

all_params-Perm :
    (ps qs : Params)
    → Permᴰ ps qs
    → Distinct (keys_of ps)
    → query_part shared_key ps ≡ query_part shared_key qs
unfolding query_part
all_params-Perm [] [] p h = refl
all_params-Perm [] (y ∷ qs) p h = let e = Perm.nil-eq ∣ p ∣₁ in absurd (cc)
all_params-Perm (x ∷ ps) [] p h = let e = Perm.eq-nil ∣ p ∣₁ in absurd (cc)
all_params-Perm (x ∷ ps) (y ∷ qs) p h = rw (sort_strings-Perm (keys_of-Perm p)) (
    rw
      (complete_params-same (x ∷ ps) (y ∷ qs) (sort_strings (keys_of (y ∷ qs)))
        (λ k. find-Perm k p h))
      refl)

query_part-Perm :
    (t : SharedKeyType) (ps qs : Params)
    → Permᴰ ps qs
    → Distinct (keys_of ps)
    → query_part t ps ≡ query_part t qs
unfolding query_part
query_part-Perm shared_key ps qs p h = all_params-Perm ps qs p h
query_part-Perm shared_key_for_table ps qs p h = ap comp_of (find-Perm "comp" p h)
query_part-Perm shared_key_lite ps qs p h = ap comp_of (find-Perm "comp" p h)
query_part-Perm shared_key_lite_for_table ps qs p h = ap comp_of (find-Perm "comp" p h)
query_part-Perm (unsupported t) ps qs p h = ap comp_of (find-Perm "comp" p h)

module _ {Key : Type 0} (lib : Library Key) (h : Header) where
  abbrev pub with_entry : String → Values → Values
  with_entry k vs =
      let name = lib.trim_space (lib.to_lower k) in
      if has_prefix name "x-ms-" then (name, h.get k) ∷ vs else vs

  -- the entries that the header's keys make, in their order
  abbrev pub entries : List String → Values
  entries [] = []
  entries (k ∷ ks) = with_entry k (entries ks)

  with_entry-Perm :
      (k : String) {vs ws : Values} → Permᴰ vs ws → Permᴰ (with_entry k vs) (with_entry k ws)
  with_entry-Perm k p = elim (Bool-cases (has_prefix (lib.trim_space (lib.to_lower k)) "x-ms-")) [
    | inl e ↦ rw e (Permᴰ.cons refl p)
    | inr e ↦ rw e p
  ]

  with_entry-swap :
      (j k : String) (vs : Values)
      → Permᴰ (with_entry j (with_entry k vs)) (with_entry k (with_entry j vs))
  with_entry-swap j k vs =
      elim (Bool-cases (has_prefix (lib.trim_space (lib.to_lower k)) "x-ms-")) [
        | inl e ↦ elim (Bool-cases (has_prefix (lib.trim_space (lib.to_lower j)) "x-ms-")) [
          | inl f ↦ rw e (rw f (Permᴰ.swap refl refl))
          | inr f ↦ rw e (rw f (Permᴰ-refl _))
        ]
        | inr e ↦ rw e (Permᴰ-refl _)
      ]

  entries-Perm : {ks js : List String} → Permᴰ ks js → Permᴰ (entries ks) (entries js)
  entries-Perm Permᴰ.nil = Permᴰ.nil
  entries-Perm (Permᴰ.cons {a = a} {l₁ = l} {l₂ = m} e p) =
      subst (λ b. Permᴰ (with_entry a (entries l)) (with_entry b (entries m))) e
        (with_entry-Perm a (entries-Perm p))
  entries-Perm (Permᴰ.swap {a = a} {b = b} {b' = c} {l = l} e f) =
      subst
        (λ x.
          Permᴰ (with_entry a (with_entry b (entries l))) (with_entry x (with_entry c (entries l))))
        f
        (subst
          (λ x.
            Permᴰ (with_entry a (with_entry b (entries l)))
              (with_entry b (with_entry x (entries l))))
          e (with_entry-swap a b (entries l)))
  entries-Perm (Permᴰ.trans p q) = Permᴰ.trans (entries-Perm p) (entries-Perm q)

  collect-Perm :
      (ks : List String) (cm : Values)
      → Distinct (keys_of (append (entries ks) cm))
      → Permᴰ (collect lib h ks cm) (append (entries ks) cm)
  unfolding collect
  collect-Perm [] cm d = Permᴰ-refl cm
  collect-Perm (k ∷ ks) cm d =
      elim (Bool-cases (has_prefix (lib.trim_space (lib.to_lower k)) "x-ms-")) [
        | inl e ↦
            let name = lib.trim_space (lib.to_lower k) in
            let v = h.get k in
            let distinct : Distinct (name ∷ keys_of (append (entries ks) cm)) = rw e at d in
            let put = set-Perm name v cm (Absent-append name (entries ks) cm distinct.0) in
            let moved =
              Permᴰ.trans (append-Perm (entries ks) put) (middle-Perm (name, v) (entries ks) cm) in
            rw e (
              Permᴰ.trans
                (collect-Perm ks (set name v cm)
                  (Distinct-Perm (Permᴰ-symm (keys_of-Perm moved)) distinct))
                moved)
        | inr e ↦ rw e (collect-Perm ks cm (rw e at d))
      ]

-- the headers whose names begin with x-ms-, by their names
abbrev pub SignedOnce : {Key : Type 0} → Library Key → Header → Type 0
SignedOnce lib h = Distinct (keys_of (entries lib h h.keys))

module _ {Key : Type 0} (lib : Library Key) where
  map-Perm :
      (h : Header) → SignedOnce lib h → Permᴰ (collect lib h h.keys []) (entries lib h h.keys)
  map-Perm h d =
      subst (λ vs. Permᴰ (collect lib h h.keys []) vs) (append-nil (entries lib h h.keys))
        (collect-Perm lib h h.keys [] (rw (append-nil (entries lib h h.keys)) d))

  -- Go's maps are met in any order. Where no two headers that are signed have one name, and no
  -- parameter of the query stands twice in its map, neither the canonical header nor what the query
  -- adds to the canonical resource, for any type of key, depends on that order.
  pub signature-Perm :
      (h : Header) (keys : List String) (t : SharedKeyType) (ps qs : Params)
      → SignedOnce lib h
      → Permᴰ h.keys keys
      → Distinct (keys_of ps)
      → Permᴰ ps qs
      → (build_canonicalized_header lib h
          ≡ build_canonicalized_header lib (record h { keys = keys }))
        × (query_part t ps ≡ query_part t qs)
  unfolding build_canonicalized_header
  signature-Perm h keys t ps qs once p distinct q =
      let h' = record h { keys = keys } in
      let same = entries-Perm lib h p in
      let once' : SignedOnce lib h' = Distinct-Perm (keys_of-Perm same) once in
      let a = map-Perm h once in
      (
        headers_of-Perm (Permᴰ.trans a (Permᴰ.trans same (Permᴰ-symm (map-Perm h' once'))))
            (Distinct-Perm (keys_of-Perm (Permᴰ-symm a)) once),
        query_part-Perm t ps qs q distinct,
      )
