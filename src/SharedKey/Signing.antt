-- ===== src/SharedKey/Signing.antt =====
-- autorest/authorization_storage.go: what `WithAuthorization` makes of a request.
use go_autorest.Prelude.{
  ◌≡◌, ◌≢◌, ◌∙◌, refl, sym, subst, String, Bool, true, false, ◌&&◌, ◌⊎◌, inl, inr, is_empty, str_eq,
  eq_iff, Bool-cases,
}
use go_autorest.SharedKey.Canonical.{
  Header, Request, Library, SharedKeyAuthorizer, build_canonicalized_resource,
  build_canonicalized_string, create_authorization_header, set_header, dated, signed, shared_key_of,
  build_shared_key, authorized, with_authorization,
}

-- What `http.CanonicalHeaderKey` does with the keys that the code sets and asks for.
pub record CanonicalKeys {Key : Type 0} (lib : Library Key) : Type 0 where
  pub authorization : lib.canonical_key "Authorization" ≡ "Authorization"
  pub date : lib.canonical_key "Date" ≡ "Date"
  pub xms_date : lib.canonical_key "X-Ms-Date" ≡ "X-Ms-Date"

and_false : (a : Bool) {b : Bool} → b ≡ false → (a && b) ≡ false
and_false true e = e
and_false false e = refl

module _ {Key : Type 0} (lib : Library Key) where
  -- A request that is signed: it has a date, and its authorization is the signature of the
  -- canonical text of the resource, the method and the header with that date; nothing else of it
  -- is changed.
  pub record Signs (sk : SharedKeyAuthorizer Key) (now : String) (r r' : Request) : Type 0 where
    pub resource : String
    pub text : String
    pub located : build_canonicalized_resource lib sk.account_name r.url sk.key_type ≡ inr resource
    pub canonical :
        build_canonicalized_string lib r.method (dated lib now r.header) resource sk.key_type
        ≡ inr text
    pub authorization :
        r'.header.get "Authorization"
        ≡ create_authorization_header lib sk.account_name sk.account_key text sk.key_type
    pub has_date : (is_empty (r'.header.get "Date") && is_empty (r'.header.get "X-Ms-Date")) ≡ false
    pub same_method : r'.method ≡ r.method
    pub same_url : r'.url ≡ r.url
    pub others :
        (k : String)
        → lib.canonical_key k ≢ "Authorization"
        → lib.canonical_key k ≢ "X-Ms-Date"
        → r'.header.get k ≡ r.header.get k

  get-set_other :
      (j k v : String) (h : Header)
      → lib.canonical_key j ≢ k
      → (set_header lib.canonical_key k v h).get j ≡ h.get j
  unfolding set_header
  get-set_other j k v h ne = elim (Bool-cases (str_eq (lib.canonical_key j) k)) [
    | inl e ↦ absurd (ne ((eq_iff (lib.canonical_key j) k).0 e))
    | inr e ↦ rw e refl
  ]

  get-set_same :
      (j k v : String) (h : Header)
      → lib.canonical_key j ≡ k
      → (set_header lib.canonical_key k v h).get j ≡ v
  unfolding set_header
  get-set_same j k v h e = rw ((eq_iff (lib.canonical_key j) k).1 e) refl

  dated-has_date :
      (now : String) (h : Header)
      → CanonicalKeys lib
      → is_empty now ≡ false
      → (is_empty ((dated lib now h).get "Date") && is_empty ((dated lib now h).get "X-Ms-Date"))
        ≡ false
  unfolding dated
  dated-has_date now h law given =
      elim (Bool-cases (is_empty (h.get "Date") && is_empty (h.get "X-Ms-Date"))) [
        | inl e ↦
            let same = get-set_same "X-Ms-Date" "X-Ms-Date" now h law.xms_date in
            let empty : is_empty ((set_header lib.canonical_key "X-Ms-Date" now h).get "X-Ms-Date")
                ≡ false =
              rw same given in
            rw e (
              and_false (is_empty ((set_header lib.canonical_key "X-Ms-Date" now h).get "Date"))
                empty)
        | inr e ↦ rw e e
      ]

  get-dated_other :
      (j now : String) (h : Header)
      → lib.canonical_key j ≢ "X-Ms-Date"
      → (dated lib now h).get j ≡ h.get j
  unfolding dated
  get-dated_other j now h ne =
      elim (Bool-cases (is_empty (h.get "Date") && is_empty (h.get "X-Ms-Date"))) [
        | inl e ↦ rw e (get-set_other j "X-Ms-Date" now h ne)
        | inr e ↦ rw e refl
      ]

  -- where the canonical text is known, the rest follows
  signed-Signs :
      (sk : SharedKeyAuthorizer Key) (now resource : String) (r r' : Request) (x : String ⊎ String)
      → CanonicalKeys lib
      → is_empty now ≡ false
      → build_canonicalized_resource lib sk.account_name r.url sk.key_type ≡ inr resource
      → build_canonicalized_string lib r.method (dated lib now r.header) resource sk.key_type ≡ x
      → authorized lib (
        signed lib sk.account_name sk.account_key sk.key_type x,
        record r { header = dated lib now r.header },
      )
        ≡ inr r'
      → Signs sk now r r'
  signed-Signs sk now resource r r' (inl e) law given located canonical done = absurd (cc)
  signed-Signs sk now resource r r' (inr text) law given located canonical done =
      let h = dated lib now r.header in
      let a = create_authorization_header lib sk.account_name sk.account_key text sk.key_type in
      let made : record r { header = set_header lib.canonical_key "Authorization" a h } ≡ r' = cc in
      subst (Signs sk now r) made (record {
        resource = resource;
        text = text;
        located = located;
        canonical = canonical;
        authorization = get-set_same "Authorization" "Authorization" a h law.authorization;
        has_date =
            rw (get-set_other "Date" "Authorization" a h (λ e. not_date (sym law.date ∙ e))) (
              rw
                (get-set_other "X-Ms-Date" "Authorization" a h
                  (λ e. not_xms (sym law.xms_date ∙ e)))
                (dated-has_date now r.header law given));
        same_method = refl;
        same_url = refl;
        others = λ k n m. get-set_other k "Authorization" a h n ∙ get-dated_other k now r.header m;
      })
    where
      not_date : ◌≢◌ {A = String} "Date" "Authorization"
      not_date e = cc

      not_xms : ◌≢◌ {A = String} "X-Ms-Date" "Authorization"
      not_xms e = cc

  shared_key-Signs :
      (sk : SharedKeyAuthorizer Key) (now : String) (r r' : Request) (x : String ⊎ String)
      → CanonicalKeys lib
      → is_empty now ≡ false
      → build_canonicalized_resource lib sk.account_name r.url sk.key_type ≡ x
      → authorized lib (shared_key_of lib sk.account_name sk.account_key now r sk.key_type x)
        ≡ inr r'
      → Signs sk now r r'
  shared_key-Signs sk now r r' (inl e) law given located done = absurd (cc)
  shared_key-Signs sk now r r' (inr resource) law given located done =
      signed-Signs sk now resource r r' _ law given located refl done

  -- Where the decorator of `WithAuthorization` returns a request without an error, for one that
  -- the preparer that it wraps prepared, that request is signed: it has a date, its authorization is
  -- the signature of the canonical text of its resource, method and dated header with the
  -- account's key, and its method, its URL and every other header are as they were prepared.
  pub with_authorization-Signs :
      (sk : SharedKeyAuthorizer Key) (now : String) (r r' : Request)
      → CanonicalKeys lib
      → is_empty now ≡ false
      → with_authorization lib sk now (inr r) ≡ inr r'
      → Signs sk now r r'
  unfolding with_authorization build_shared_key
  with_authorization-Signs sk now r r' law given done =
      shared_key-Signs sk now r r'
        (build_canonicalized_resource lib sk.account_name r.url sk.key_type) law given refl done
