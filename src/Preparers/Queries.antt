-- ===== src/Preparers/Queries.antt =====
-- autorest/preparer.go: WithQueryParameters; autorest/utility.go: MapToValues.
pub mod Reused
use go_autorest.Prelude.{
  String, Option, none, some, List, [], ◌∷◌, ◌⊎◌, inl, inr, if◌then◌else◌, str_eq,
}
use go_autorest.Errors.{external, new_error}
use go_autorest.Result.{Result, ok, err, panic}
use go_autorest.Senders.{Url}
use go_autorest.Preparers.{Preparer, PrepareDecorator}
use go_autorest.Preparers.Outgoing.{
  Outgoing, Value, nil_value, str, bytes, printed, slice, Mapped, ensure_value_string,
  then_prepared,
}

-- `url.Values`
abbrev pub Query : Type 0
Query = Mapped (List String)

-- URL.Query, Values.Encode, and url.QueryUnescape: an error's text, or the text
pub record QueryLibrary : Type 0 where
  pub query : Url → Query
  pub encode : Query → String
  pub unescape : String → String ⊎ String

-- `v[key] = value`
unfoldable pub query_set : String → List String → Query → Query
query_set k vs [] = (k, vs) ∷ []
query_set k vs ((j, ws) ∷ q) = if str_eq j k then (k, vs) ∷ q else (j, ws) ∷ query_set k vs q

-- the values that are added for a key: those of a slice, of bytes one by one too
unfoldable pub values_of : Value → List String
values_of (slice text items) = items
values_of (bytes text items) = items
values_of v = ensure_value_string v ∷ []

-- a key without values is not set
abbrev pub with_values : String → List String → Query → Query
with_values k [] q = q
with_values k (v ∷ vs) q = (k, v ∷ vs) ∷ q

unfoldable pub map_to_values : Mapped Value → Query
map_to_values [] = []
map_to_values ((k, v) ∷ m) = with_values k (values_of v) (map_to_values m)

module _ (lib : QueryLibrary) where
  -- `value[i] = d` for the values in order, up to the first error
  unfoldable pub unescape_values : List String → Option String × List String
  unescape_values [] = (none, [])
  unescape_values (x ∷ xs) = elim (lib.unescape x) [
    | inl e ↦ (some e, x ∷ xs)
    | inr d ↦ let (e, ys) = unescape_values xs in (e, d ∷ ys)
  ]

  -- The loop over the parameters: the query, or an error, and the parameters as it leaves them.
  unfoldable pub add_parameters : Query → Query → (String ⊎ Query) × Query
  add_parameters [] v = (inr v, [])
  add_parameters ((k, xs) ∷ ps) v = elim (unescape_values xs).0 [
    | some e ↦ (inl e, (k, (unescape_values xs).1) ∷ ps)
    | none ↦
        let (q, ps') = add_parameters ps (query_set k (unescape_values xs).1 v) in
        (q, (k, (unescape_values xs).1) ∷ ps')
  ]

  abbrev pub queried : Url → Outgoing → (String ⊎ Query) × Query → Result Outgoing × Query
  queried u r (inl e, ps) = (err (external e), ps)
  queried u r (inr v, ps) =
      (ok (record r { url = some (record u { raw_query = lib.encode v }) }), ps)

  abbrev pub query_at : Query → Outgoing → Option Url → Result Outgoing × Query
  query_at ps r none =
      (err (new_error "autorest" "WithQueryParameters" "Invoked with a nil URL" []), ps)
  query_at ps r (some u) = queried u r (add_parameters ps (lib.query u))

  abbrev pub query_used : Query → Result Outgoing → Result Outgoing × Query
  query_used ps (ok r) = query_at ps r r.url
  query_used ps (err e) = (err e, ps)
  query_used ps panic = (panic, ps)

  -- A use of the decorator: its parameters, which it keeps for the next use, are changed in place.
  unfoldable pub use_query_parameters :
      Query → Preparer Outgoing → Outgoing → Result Outgoing × Query
  use_query_parameters ps p r = query_used ps (p r)

  unfoldable pub with_query_parameters : Mapped Value → PrepareDecorator Outgoing
  unfolding use_query_parameters
  with_query_parameters parameters p r = (use_query_parameters (map_to_values parameters) p r).0
