-- ===== src/Clients/Signed.antt =====
-- autorest/authorization_sas.go: a request that is signed again.
use Prim.Native.Char.{Char}
use Prim.Native.String.{◌++◌}
use text.Mathlib.TextLemmas.{cons-append, nil-append, append-nil, append_assoc, cons-ne-nil}
use go_autorest.Prelude.{
  String, Bool, true, false, not, ◌||◌, ◌≡◌, refl, ap, subst, Option, none, some, is_empty,
  if-intro, eq_iff, Bool-cases, ◌⊎◌, inl, inr,
}
use go_autorest.Errors.{Error}
use go_autorest.Result.{Result, ok, err, panic}
use go_autorest.Senders.{Url}
use go_autorest.Preparers.{Preparer, decorate_preparer, create_preparer, prepare}
use go_autorest.Preparers.Text.{contains}
use go_autorest.SharedKey.Sorting.{has_prefix}
use go_autorest.Preparers.Templates.Pieces.{has_prefix-append}
use go_autorest.Preparers.Outgoing.{Outgoing, then_prepared}
use go_autorest.Clients.Authorizers.{with_token, signed_at, sas_authorizer}

prefix_self : (t : String) → has_prefix t t ≡ true
prefix_self t = subst (λ s. has_prefix s t ≡ true) (append-nil t) (has_prefix-append t "")

empty_prefix : (t : String) → has_prefix t "" ≡ true
unfolding has_prefix
empty_prefix String.[] = refl
empty_prefix (String.◌∷◌ c s) = refl

contains_self : (t : String) → contains t t ≡ true
unfolding contains
contains_self String.[] = prefix_self ""
contains_self (String.◌∷◌ c t) = rw (prefix_self (String.◌∷◌ c t)) refl

or_true : (b : Bool) → (b || true) ≡ true
or_true true = refl
or_true false = refl

contains-append : (a t : String) → contains (a ++ t) t ≡ true
unfolding contains
contains-append String.[] t = rw (nil-append t) (contains_self t)
contains-append (String.◌∷◌ c a) t = rw (cons-append c a t) (rw (contains-append a t) (or_true _))

not-false : (b : Bool) → not b ≡ false → b ≡ true
not-false true h = refl
not-false false h = absurd (cc)

-- a query that has the token is left as it is
kept : (t q : String) → contains q t ≡ true → is_empty q ≡ false → with_token t q ≡ q
unfolding with_token
kept t q h e = rw e (rw h refl)

pub cons_not_empty : (c : Char) (s : String) → is_empty (String.◌∷◌ c s) ≡ false
cons_not_empty c s = elim (Bool-cases (is_empty (String.◌∷◌ c s))) [
  | inl e ↦ absurd (cons-ne-nil c s ((eq_iff (String.◌∷◌ c s) "").0 e))
  | inr e ↦ e
]

not_empty : (q s : String) → is_empty q ≡ false → is_empty (q ++ s) ≡ false
not_empty String.[] s e = absurd (cc)
not_empty (String.◌∷◌ c q) s e = rw (cons-append c q s) (cons_not_empty c (q ++ s))

token-contained : (t q : String) → contains (with_token t q) t ≡ true
unfolding with_token
token-contained t q =
    if-intro (λ s. contains s t ≡ true) (is_empty q) (λ _. contains_self t)
      (λ _.
        if-intro (λ s. contains s t ≡ true) (not (contains q t))
          (λ _.
            subst (λ s. contains s t ≡ true) (append_assoc q "&" t) (contains-append (q ++ "&") t))
          (λ h. not-false (contains q t) h))

token-not_empty : (t q : String) → is_empty t ≡ false → is_empty (with_token t q) ≡ false
unfolding with_token
token-not_empty t q ne =
    if-intro (λ s. is_empty s ≡ false) (is_empty q) (λ _. ne)
      (λ e.
        if-intro (λ s. is_empty s ≡ false) (not (contains q t)) (λ _. not_empty q ("&" ++ t) e)
          (λ _. e))

token_twice : (t q : String) → is_empty t ≡ false → with_token t (with_token t q) ≡ with_token t q
token_twice t q ne = kept t (with_token t q) (token-contained t q) (token-not_empty t q ne)

signed_twice :
    (t : String) (u : Option Url) (r : Outgoing)
    → is_empty t ≡ false
    → then_prepared (signed_at t u r) (λ r'. signed_at t r'.url r') ≡ signed_at t u r
unfolding prepare create_preparer decorate_preparer
signed_twice t none r ne = refl
signed_twice t (some u) r ne =
    ap (λ q. ok (record r { url = some (record u { raw_query = q }) }))
      (token_twice t u.raw_query ne)

-- The query `q` of a signed URL: it begins with the query before, it contains the token, and it is
-- another one only if the token was missing.
pub record IsSignedQuery (token before q : String) : Type 0 where
  extends : has_prefix q before ≡ true
  contained : contains q token ≡ true
  needed : (q ≡ before) ⊎ (contains before token ≡ false)

-- What signing makes of what the preparer returned: the same request with a signed query; a panic
-- on a nil URL; the preparer's error or panic.
pub data IsSigned (token : String) : Result Outgoing → Result Outgoing → Type 0 where
  signed :
      (r : Outgoing) (u : Url) (q : String)
      → r.url ≡ some u
      → IsSignedQuery token u.raw_query q
      → IsSigned token (ok r) (ok (record r { url = some (record u { raw_query = q }) }))
  no_url : (r : Outgoing) → r.url ≡ none → IsSigned token (ok r) panic
  failed : (e : Error) → IsSigned token (err e) (err e)
  panics : IsSigned token panic panic

empty-lacks : (t : String) → is_empty t ≡ false → contains "" t ≡ false
unfolding contains has_prefix
empty-lacks String.[] h = absurd (cc)
empty-lacks (String.◌∷◌ c s) h = refl

with_token-IsSignedQuery : (t q : String) → is_empty t ≡ false → IsSignedQuery t q (with_token t q)
unfolding with_token
with_token-IsSignedQuery t String.[] ne = record {
  extends = empty_prefix t;
  contained = contains_self t;
  needed = inr (empty-lacks t ne);
}
with_token-IsSignedQuery t (String.◌∷◌ c q) ne =
    rw (cons_not_empty c q) (elim (Bool-cases (contains (String.◌∷◌ c q) t)) [
      | inl e ↦
          rw e (record { extends = prefix_self (String.◌∷◌ c q); contained = e; needed = inl refl })
      | inr e ↦ rw e (record {
        extends = has_prefix-append (String.◌∷◌ c q) ("&" ++ t);
        contained =
            subst (λ s. contains s t ≡ true) (append_assoc (String.◌∷◌ c q) "&" t)
              (contains-append (String.◌∷◌ c q ++ "&") t);
        needed = inr e;
      })
    ])

signed_at-IsSigned :
    (t : String) (u : Option Url) (r : Outgoing)
    → r.url ≡ u
    → is_empty t ≡ false
    → IsSigned t (ok r) (signed_at t u r)
unfolding prepare create_preparer decorate_preparer
signed_at-IsSigned t none r e ne = no_url r e
signed_at-IsSigned t (some u) r e ne = signed r u _ e (with_token-IsSignedQuery t u.raw_query ne)

-- A `SASTokenAuthorizer` with a token that is not empty changes only the query of the request that
-- the preparer returned: the new query begins with the old one and contains the token, and is the
-- old one if that contains the token. It panics on a nil URL, and passes on the preparer's error or
-- panic. A request that it signs again is the same as signed once.
pub sas_twice :
    (token : String) (p : Preparer Outgoing) (r : Outgoing)
    → is_empty token ≡ false
    → IsSigned token (p r) (sas_authorizer token p r)
      × (sas_authorizer token (sas_authorizer token p) r ≡ sas_authorizer token p r)
unfolding sas_authorizer
sas_twice token p r ne = after (p r)
  where
    after :
        (x : Result Outgoing)
        → IsSigned token x (then_prepared x (λ r'. signed_at token r'.url r'))
          × (then_prepared
                (then_prepared x (λ r'. signed_at token r'.url r'))
                (λ r'. signed_at token r'.url r')
              ≡ then_prepared x (λ r'. signed_at token r'.url r'))
    after (ok r') = (signed_at-IsSigned token r'.url r' refl ne, signed_twice token r'.url r' ne)
    after (err e) = (failed e, refl)
    after panic = (panics, refl)
