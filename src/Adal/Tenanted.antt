-- ===== src/Adal/Tenanted.antt =====
-- autorest/adal/config.go, autorest/adal/token.go: the tokens of several tenants belong to them.
use go_autorest.Prelude.{
  ◌≤◌, ◌≡◌, refl, sym, ap, ◌∙◌, subst, String, ◌||◌, Option, none, some, List, [], ◌∷◌, ◌⊎◌, inl,
  inr, ltb, ◌==◌, length, arith, Bool-cases,
}
use go_autorest.Adal.Types.{OauthConfig, token_secret, ServicePrincipalToken, AdalError}
use go_autorest.Adal.Create.{
  checked, validate_oauth_config, validate_string_param, new_spt, new_spt_with_secret,
}
use go_autorest.Adal.Created.{IsUsable, AllUsable, secret-AllUsable}
use go_autorest.Adal.Tenants.{
  Urls, new_oauth_config_with_api_version, new_oauth_config, api_version_of, MultiTenantConfig,
  MultiTenantToken, after, then_rest, fill, with_auxiliary, new_multi_tenant_oauth_config,
  with_tokens, tokens_by, new_multi_tenant_spt,
}

-- two lists of one length, related item by item
abbrev pub All2 : {A B : Type 0} → (A → B → Type 0) → List A → List B → Type 0
All2 R [] [] = Unit {0}
All2 R [] (y ∷ ys) = ⊥
All2 R (x ∷ xs) [] = ⊥
All2 R (x ∷ xs) (y ∷ ys) = R x y × All2 R xs ys

fill-All2 :
    {A B : Type 0} (format : A → String) (f : A → AdalError ⊎ B) (xs : List A) (ys : List B)
    → fill format f xs ≡ inr ys
    → All2 (λ x y. f x ≡ inr y) xs ys
unfolding fill
fill-All2 {A} {B} format f [] [] h = tt
fill-All2 {A} {B} format f [] (y ∷ ys) h = absurd (cc)
fill-All2 {A} {B} format f (x ∷ xs) ys h =
    step (f x) (fill format f xs) ys (fill-All2 format f xs) refl refl h
  where
    step :
        (r : AdalError ⊎ B) (rest : AdalError ⊎ List B) (ys : List B)
        → ((zs : List B) → fill format f xs ≡ inr zs → All2 (λ x y. f x ≡ inr y) xs zs)
        → f x ≡ r
        → fill format f xs ≡ rest
        → after (format x) r (λ y. then_rest y rest) ≡ inr ys
        → All2 (λ x y. f x ≡ inr y) (x ∷ xs) ys
    step (inl e) rest ys ih a b h = absurd (cc)
    step (inr y) (inl e) ys ih a b h = absurd (cc)
    step (inr y) (inr zs) [] ih a b h = absurd (cc)
    step (inr y) (inr zs) (u ∷ us) ih a b h =
        let p : y ≡ u = cc in let q : zs ≡ us = cc in (a ∙ ap inr p, ih us (b ∙ ap inr q))

checked-given :
    {A : Type 0} (e : Option AdalError) (m : AdalError ⊎ A) (a : A)
    → checked e m ≡ inr a
    → m ≡ inr a
checked-given none m a h = h
checked-given (some e) m a h = absurd (cc)

secret-given :
    (oac : OauthConfig) (id s resource : String) (t : ServicePrincipalToken)
    → new_spt oac id s resource [] ≡ inr t
    → (t.oauth_config ≡ oac) × (t.secret ≡ token_secret s) × (t.resource ≡ resource)
unfolding new_spt new_spt_with_secret
secret-given oac id s resource t h =
    let a = checked-given (validate_oauth_config oac) _ t h in
    let b = checked-given (validate_string_param id "clientID") _ t a in
    let c = checked-given (validate_string_param s "secret") _ t b in
    let d = checked-given (validate_string_param resource "resource") _ t c in
    let e = checked-given (validate_oauth_config oac) _ t d in
    let f = checked-given (validate_string_param id "id") _ t e in
    let made = checked-given (validate_string_param resource "resource") _ t f in (cc, cc, cc)

-- the tokens of a list that a loop over one list after another made
All2-trans :
    {A B C : Type 0} (R : A → B → Type 0) (S : B → C → Type 0) (T : A → C → Type 0) (xs : List A)
    (ys : List B) (zs : List C)
    → ((x : A) (y : B) (z : C) → R x y → S y z → T x z)
    → All2 R xs ys
    → All2 S ys zs
    → All2 T xs zs
All2-trans R S T [] [] [] f p q = tt
All2-trans R S T [] [] (z ∷ zs) f p q = absurd q
All2-trans R S T [] (y ∷ ys) zs f p q = absurd p
All2-trans R S T (x ∷ xs) [] zs f p q = absurd p
All2-trans R S T (x ∷ xs) (y ∷ ys) [] f p q = absurd q
All2-trans R S T (x ∷ xs) (y ∷ ys) (z ∷ zs) f (r, p) (s, q) =
    (f x y z r s, All2-trans R S T xs ys zs f p q)

-- A token of a tenant: its configuration is that of the tenant, it has the client's secret and the
-- resource, and it passes the constructors' checks.
pub record TokenOf (made : AdalError ⊎ OauthConfig) (s resource : String)
    (t : ServicePrincipalToken) : Type 0 where
  pub configured : made ≡ inr t.oauth_config
  pub has_secret : t.secret ≡ token_secret s
  pub same_resource : t.resource ≡ resource
  pub usable : IsUsable t

new_spt-TokenOf :
    (made : AdalError ⊎ OauthConfig) (oac : OauthConfig) (id s resource : String)
    (t : ServicePrincipalToken)
    → made ≡ inr oac
    → new_spt oac id s resource [] ≡ inr t
    → TokenOf made s resource t
new_spt-TokenOf made oac id s resource t m h =
    let (a, b, c) = secret-given oac id s resource t h in
    record {
      configured = m ∙ ap inr (sym a);
      has_secret = b;
      same_resource = c;
      usable = subst AllUsable h (secret-AllUsable oac id s resource []);
    }

-- the tokens that one constructor makes for each configuration
tokens-given :
    (make : OauthConfig → AdalError ⊎ ServicePrincipalToken) (cfg : MultiTenantConfig)
    (mt : MultiTenantToken) (first : AdalError ⊎ ServicePrincipalToken)
    (rest : AdalError ⊎ List ServicePrincipalToken) (format : String) (texts : OauthConfig → String)
    → make cfg.primary ≡ first
    → fill texts make cfg.auxiliary ≡ rest
    → after format first (λ t. with_tokens t rest) ≡ inr mt
    → (make cfg.primary ≡ inr mt.primary_token)
      × All2 (λ c t. make c ≡ inr t) cfg.auxiliary mt.auxiliary_tokens
tokens-given make cfg mt (inl e) rest format texts a b h = absurd (cc)
tokens-given make cfg mt (inr t) (inl e) format texts a b h = absurd (cc)
tokens-given make cfg mt (inr t) (inr ts) format texts a b h =
    let p : mt.primary_token ≡ t = cc in
    let q : mt.auxiliary_tokens ≡ ts = cc in
    (a ∙ ap inr (sym p), rw q (fill-All2 texts make cfg.auxiliary ts b))

module _ {Url : Type 0} (urls : Urls Url) where
  -- what the configuration of several tenants holds
  record Configured (endpoint primary : String) (tenants : List String) (version : String)
      (cfg : MultiTenantConfig) : Type 0 where
    few : (1 ≤ length tenants) × (length tenants ≤ 3)
    first :
        new_oauth_config_with_api_version urls endpoint primary (some (api_version_of version))
        ≡ inr cfg.primary
    others : All2 (λ t c. new_oauth_config urls endpoint t ≡ inr c) tenants cfg.auxiliary

  filled-Configured :
      (endpoint primary : String) (tenants : List String) (version : String)
      (cfg : MultiTenantConfig) (first : AdalError ⊎ OauthConfig)
      (rest : AdalError ⊎ List OauthConfig) (format : String) (texts : String → String)
      → (1 ≤ length tenants) × (length tenants ≤ 3)
      → new_oauth_config_with_api_version urls endpoint primary (some (api_version_of version))
        ≡ first
      → fill texts (new_oauth_config urls endpoint) tenants ≡ rest
      → after format first (λ c. with_auxiliary urls c rest) ≡ inr cfg
      → Configured endpoint primary tenants version cfg
  filled-Configured endpoint primary tenants version cfg (inl e) rest format texts few a b h =
      absurd (cc)
  filled-Configured endpoint primary tenants version cfg (inr c) (inl e) format texts few a b h =
      absurd (cc)
  filled-Configured endpoint primary tenants version cfg (inr c) (inr cs) format texts few a b h =
      let p : cfg.primary ≡ c = cc in
      let q : cfg.auxiliary ≡ cs = cc in
      record {
        few = few;
        first = a ∙ ap inr (sym p);
        others = rw q (fill-All2 texts (new_oauth_config urls endpoint) tenants cs b);
      }

  config-Configured :
      (endpoint primary : String) (tenants : List String) (version : String)
      (cfg : MultiTenantConfig)
      → new_multi_tenant_oauth_config urls endpoint primary tenants version ≡ inr cfg
      → Configured endpoint primary tenants version cfg
  unfolding new_multi_tenant_oauth_config
  config-Configured endpoint primary tenants version cfg h =
      elim (Bool-cases (length tenants == 0 || ltb 3 (length tenants))) [
        | inl e ↦ let x = rw e at h in absurd (cc)
        | inr e ↦
            filled-Configured endpoint primary tenants version cfg _ _ _ _
              (ground arith, ground arith) refl refl (rw e at h)
      ]

  -- Where a configuration of several tenants and then the tokens for it are created without an
  -- error, there are one to three auxiliary tenants and one token for each, in order; every token
  -- has its tenant's endpoints, the client's secret and the resource, and passes the constructors'
  -- checks. The endpoints of an auxiliary tenant are those of `NewOAuthConfig`, and those of the
  -- primary tenant are those of `NewOAuthConfigWithAPIVersion` with the version as
  -- `OAuthOptions.apiVersion` returns it.
  pub tenants-TokenOf :
      (endpoint primary : String) (tenants : List String) (version : String)
      (cfg : MultiTenantConfig) (id s resource : String) (mt : MultiTenantToken)
      → new_multi_tenant_oauth_config urls endpoint primary tenants version ≡ inr cfg
      → new_multi_tenant_spt cfg id s resource ≡ inr mt
      → (1 ≤ length tenants)
        × (length tenants ≤ 3)
        × TokenOf
            (new_oauth_config_with_api_version urls endpoint primary
              (some (api_version_of version)))
            s
            resource
            mt.primary_token
        × All2
            (λ t token. TokenOf (new_oauth_config urls endpoint t) s resource token)
            tenants
            mt.auxiliary_tokens
  unfolding new_multi_tenant_spt tokens_by
  tenants-TokenOf endpoint primary tenants version cfg id s resource mt h k =
      let c = config-Configured endpoint primary tenants version cfg h in
      let a = checked-given (validate_string_param id "clientID") _ mt k in
      let b = checked-given (validate_string_param s "secret") _ mt a in
      let d = checked-given (validate_string_param resource "resource") _ mt b in
      let (first, others) =
        tokens-given (λ oac. new_spt oac id s resource []) cfg mt _ _ _ _ refl refl d in
      (
        c.few.0,
        c.few.1,
        new_spt-TokenOf _ cfg.primary id s resource mt.primary_token c.first first,
        All2-trans _ _ _ tenants cfg.auxiliary mt.auxiliary_tokens
            (λ t oac token m n.
              new_spt-TokenOf (new_oauth_config urls endpoint t) oac id s resource token m n)
            c.others others,
      )
