-- ===== src/Preparers/Queries/Reused.antt =====
-- autorest/preparer.go: what a use of WithQueryParameters leaves of its parameters.
use go_autorest.Prelude.{
  String, ◌≡◌, refl, sym, subst, Option, none, some, List, [], ◌∷◌, ◌⊎◌, inl, inr,
}
use go_autorest.Errors.{Error}
use go_autorest.Result.{Result, ok, err}
use go_autorest.Senders.{Url}
use go_autorest.Preparers.{Preparer}
use go_autorest.Preparers.Outgoing.{Outgoing}
use go_autorest.Preparers.Queries.{
  Query, QueryLibrary, query_set, unescape_values, add_parameters, queried, query_at, query_used,
  use_query_parameters,
}

-- every parameter set in a query
abbrev pub set_all : Query → Query → Query
set_all [] v = v
set_all ((k, xs) ∷ ps) v = set_all ps (query_set k xs v)

module _ (lib : QueryLibrary) where
  -- the values of one list, unescaped, are those of the other
  pub data AreUnescaped : List String → List String → Type 0 where
    none_left : AreUnescaped [] []
    next :
        {x y : String} {xs ys : List String}
        → lib.unescape x ≡ inr y
        → AreUnescaped xs ys
        → AreUnescaped (x ∷ xs) (y ∷ ys)

  -- the same keys, with unescaped values
  pub data IsUnescaped : Query → Query → Type 0 where
    no_key : IsUnescaped [] []
    key :
        {k : String} {xs ys : List String} {ps qs : Query}
        → AreUnescaped xs ys
        → IsUnescaped ps qs
        → IsUnescaped ((k, xs) ∷ ps) ((k, ys) ∷ qs)

  abbrev after_value : String → List String → String ⊎ String → Option String × List String
  after_value x xs (inl d) = (some d, x ∷ xs)
  after_value x xs (inr d) = let (f, ys) = unescape_values lib xs in (f, d ∷ ys)

  after_value-AreUnescaped :
      (x : String) (xs : List String) (o : String ⊎ String)
      → ((unescape_values lib xs).0 ≡ none → AreUnescaped xs (unescape_values lib xs).1)
      → lib.unescape x ≡ o
      → (after_value x xs o).0 ≡ none
      → AreUnescaped (x ∷ xs) (after_value x xs o).1
  after_value-AreUnescaped x xs (inl d) ih f e = absurd (cc)
  after_value-AreUnescaped x xs (inr d) ih f e = next f (ih e)

  unescape_values-AreUnescaped :
      (xs : List String)
      → (unescape_values lib xs).0 ≡ none
      → AreUnescaped xs (unescape_values lib xs).1
  unfolding unescape_values
  unescape_values-AreUnescaped [] e = none_left
  unescape_values-AreUnescaped (x ∷ xs) e =
      after_value-AreUnescaped x xs (lib.unescape x) (unescape_values-AreUnescaped xs) refl e

  abbrev IsAdded : Query → Query → (String ⊎ Query) × Query → Type 0
  IsAdded ps v (inl e, qs) = Unit {0}
  IsAdded ps v (inr q, qs) = (q ≡ set_all qs v) × IsUnescaped ps qs

  abbrev after_key : String → List String → Query → Query → Option String → (String ⊎ Query) × Query
  after_key k ys ps v (some e) = (inl e, (k, ys) ∷ ps)
  after_key k ys ps v none =
      let (q, ps') = add_parameters lib ps (query_set k ys v) in (q, (k, ys) ∷ ps')

  later-IsAdded :
      (k : String) (xs ys : List String) (ps v : Query) (x : (String ⊎ Query) × Query)
      → AreUnescaped xs ys
      → IsAdded ps (query_set k ys v) x
      → IsAdded ((k, xs) ∷ ps) v (x.0, (k, ys) ∷ x.1)
  later-IsAdded k xs ys ps v (inl e, qs) u h = tt
  later-IsAdded k xs ys ps v (inr q, qs) u (same, h) = (same, key u h)

  after_key-IsAdded :
      (k : String) (xs ys : List String) (ps v : Query) (o : Option String)
      → (o ≡ none → AreUnescaped xs ys)
      → IsAdded ps (query_set k ys v) (add_parameters lib ps (query_set k ys v))
      → IsAdded ((k, xs) ∷ ps) v (after_key k ys ps v o)
  after_key-IsAdded k xs ys ps v (some e) u h = tt
  after_key-IsAdded k xs ys ps v none u h = later-IsAdded k xs ys ps v _ (u refl) h

  add_parameters-IsAdded : (ps v : Query) → IsAdded ps v (add_parameters lib ps v)
  unfolding add_parameters
  add_parameters-IsAdded [] v = (refl, no_key)
  add_parameters-IsAdded ((k, xs) ∷ ps) v =
      after_key-IsAdded k xs (unescape_values lib xs).1 ps v (unescape_values lib xs).0
        (unescape_values-AreUnescaped xs)
        (add_parameters-IsAdded ps (query_set k (unescape_values lib xs).1 v))

  -- what a use on a request with a URL gives
  pub data IsUsed (ps : Query) (r : Outgoing) : Result Outgoing × Query → Type 0 where
    refused : {qs : Query} (e : Error) → IsUsed ps r (err e, qs)
    used :
        {qs : Query} (u : Url)
        → r.url ≡ some u
        → IsUnescaped ps qs
        → IsUsed ps r (
          ok (record r {
            url = some (record u { raw_query = lib.encode (set_all qs (lib.query u)) });
          }),
          qs,
        )

  queried-IsUsed :
      (ps : Query) (u : Url) (r : Outgoing) (x : (String ⊎ Query) × Query)
      → r.url ≡ some u
      → IsAdded ps (lib.query u) x
      → IsUsed ps r (queried lib u r x)
  queried-IsUsed ps u r (inl e, qs) f h = refused _
  queried-IsUsed ps u r (inr q, qs) f (same, h) =
      subst
        (λ v.
          IsUsed ps r (ok (record r { url = some (record u { raw_query = lib.encode v }) }), qs))
        (sym same) (used u f h)

  query_at-IsUsed :
      (ps : Query) (r : Outgoing) (o : Option Url) → r.url ≡ o → IsUsed ps r (query_at lib ps r o)
  query_at-IsUsed ps r none f = refused _
  query_at-IsUsed ps r (some u) f =
      queried-IsUsed ps u r (add_parameters lib ps (lib.query u)) f
        (add_parameters-IsAdded ps (lib.query u))

  -- A use of `WithQueryParameters`, where the preparer that it decorates returns a request: it is
  -- refused with an error, or its URL has the query of before with every parameter set to its
  -- values unescaped; the decorator then keeps these values in place of its own, so that the next
  -- use unescapes them again.
  pub query_used-replaces :
      (ps : Query) (p : Preparer Outgoing) (r r' : Outgoing)
      → p r ≡ ok r'
      → IsUsed ps r' (use_query_parameters lib ps p r)
  unfolding use_query_parameters
  query_used-replaces ps p r r' e =
      subst (λ x. IsUsed ps r' (query_used lib ps x)) (sym e) (query_at-IsUsed ps r' r'.url refl)
