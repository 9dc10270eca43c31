-- ===== src/Preparers/Templates/Again.antt =====
-- autorest/preparer.go: a decorator WithPathParameters that is used again, with the path that its
-- first use left.
use go_autorest.Prelude.{
  String, true, ◌≡◌, refl, sym, ap, ◌∙◌, some, List, [], ◌∷◌, map, str_eq, Bool-cases, Option-cases,
  inl, inr,
}
use go_autorest.Result.{Result, ok}
use go_autorest.Senders.{Url, Library}
use go_autorest.Preparers.{Preparer}
use go_autorest.Preparers.Outgoing.{Outgoing, Value, Mapped, ensure_value_strings}
use go_autorest.SharedKey.Canonical.{find}
use go_autorest.Preparers.Templates.{substitute, parse_url, set_url, path_used, use_path_parameters}
use go_autorest.Preparers.Templates.Pieces.{Piece, lit, slot, print, is_plain, IsPlain, AllPlain}
use go_autorest.Preparers.Templates.Filled.{filled, fill, ArePlain, substitute-fills}

-- where a name has a value, it is replaced, and else it stays
fill-twice : (ps : Mapped String) (x : Piece) → fill ps (fill ps x) ≡ fill ps x
fill-twice ps (lit s) = refl
fill-twice ps (slot k) = elim (Option-cases (find k ps)) [
  | inl e ↦ rw e (ap (filled k) e)
  | inr (v, e) ↦ rw e refl
]

map-fill-twice :
    (ps : Mapped String) (xs : List Piece) → map (fill ps) (map (fill ps) xs) ≡ map (fill ps) xs
map-fill-twice ps [] = refl
map-fill-twice ps (x ∷ xs) =
    ap (λ y. y ∷ map (fill ps) (map (fill ps) xs)) (fill-twice ps x)
    ∙ ap (λ ys. fill ps x ∷ ys) (map-fill-twice ps xs)

-- the value that is found is one of those
found-IsPlain :
    (ps : Mapped String) (k : String)
    → ArePlain ps
    → is_plain k ≡ true
    → IsPlain (filled k (find k ps))
unfolding find
found-IsPlain [] k h p = p
found-IsPlain ((j, v) ∷ ps) k (jp, vp, h) p = elim (Bool-cases (str_eq j k)) [
  | inl e ↦ rw e vp
  | inr e ↦ rw e (found-IsPlain ps k h p)
]

fill-AllPlain :
    (ps : Mapped String) (xs : List Piece) → ArePlain ps → AllPlain xs → AllPlain (map (fill ps) xs)
fill-AllPlain ps [] h q = tt
fill-AllPlain ps (lit s ∷ xs) h (p, q) = (p, fill-AllPlain ps xs h q)
fill-AllPlain ps (slot k ∷ xs) h (p, q) = (found-IsPlain ps k h p, fill-AllPlain ps xs h q)

-- the template with the parameters in place of their names
abbrev pub filled_path : Mapped String → List Piece → String
filled_path ps xs = print (map (fill ps) xs)

substitute-filled :
    (ps : Mapped String) (xs : List Piece)
    → ArePlain ps
    → AllPlain xs
    → substitute ps (filled_path ps xs) ≡ filled_path ps xs
substitute-filled ps xs h q =
    substitute-fills ps (map (fill ps) xs) h (fill-AllPlain ps xs h q)
    ∙ ap print (map-fill-twice ps xs)

module _ (lib : Library) where
  path_used-fills :
      (method : String) (ps : Mapped String) (path path' : String) (x : Result Outgoing)
      (r : Outgoing) (u : Url)
      → x ≡ ok r
      → r.url ≡ some u
      → substitute ps path ≡ path'
      → path_used lib method ps path x ≡ (set_url lib (parse_url lib u path') r, path')
  path_used-fills method ps path path' x r u xe ue e = rw xe (rw ue (rw e refl))

  -- A template of texts and names in braces, where neither the texts, the names nor the parameters'
  -- values have braces of their own, and a preparer that leaves a request with a URL:
  -- `WithPathParameters` extends the URL by the template with every name that has a value replaced
  -- by it, and keeps that path in place of the template; used on that path, it gives the same
  -- request or error, and keeps the same path.
  pub use_path_again :
      (parameters : Mapped Value) (xs : List Piece) (p : Preparer Outgoing) (r r' : Outgoing)
      (u : Url)
      → p r ≡ ok r'
      → r'.url ≡ some u
      → ArePlain (ensure_value_strings parameters)
      → AllPlain xs
      → (use_path_parameters lib parameters (print xs) p r ≡ (
        set_url lib (parse_url lib u (filled_path (ensure_value_strings parameters) xs)) r',
        filled_path (ensure_value_strings parameters) xs,
      ))
        × (use_path_parameters lib parameters (filled_path (ensure_value_strings parameters) xs) p r
            ≡ use_path_parameters lib parameters (print xs) p r)
  unfolding use_path_parameters
  use_path_again parameters xs p r r' u pe ue h q =
      let ps = ensure_value_strings parameters in
      let first =
        path_used-fills "WithPathParameters" ps (print xs) (filled_path ps xs) (p r) r' u pe ue
          (substitute-fills ps xs h q) in
      (
        first,
        path_used-fills "WithPathParameters" ps (filled_path ps xs) (filled_path ps xs) (p r) r' u
              pe ue (substitute-filled ps xs h q)
            ∙ sym first,
      )
