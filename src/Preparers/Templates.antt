-- ===== src/Preparers/Templates.antt =====
-- autorest/preparer.go: the decorators that set a request's base URL and path, where parameters
-- are put in for their names in braces.
pub mod Pieces
pub mod Filled
pub mod Again
use Prim.Native.String.{◌++◌}
use go_autorest.Prelude.{
  String, Option, none, some, List, [], ◌∷◌, ◌⊎◌, inl, inr, if◌then◌else◌, is_empty,
}
use go_autorest.SharedKey.Sorting.{has_prefix}
use go_autorest.Errors.{external, new_error}
use go_autorest.Result.{Result, ok, err, panic}
use go_autorest.Senders.{Url, Library}
use go_autorest.Preparers.{Preparer, PrepareDecorator}
use go_autorest.Preparers.Text.{replace_all, trim_slashes, braced}
use go_autorest.Preparers.Outgoing.{Outgoing, Value, Mapped, ensure_value_strings, then_prepared}

-- every `{key}` of the text replaced by its value, one parameter after the other
unfoldable pub substitute : Mapped String → String → String
substitute [] path = path
substitute ((key, value) ∷ parameters) path =
    substitute parameters (replace_all path (braced key) value)

-- url.QueryEscape of every value
unfoldable pub escape_value_strings : (String → String) → Mapped String → Mapped String
escape_value_strings escape [] = []
escape_value_strings escape ((k, v) ∷ m) = (k, escape v) ∷ escape_value_strings escape m

module _ (lib : Library) where
  abbrev pub reencoded : String ⊎ String → Url → Outgoing → Result Outgoing
  reencoded (inl e) u r = err (external e)
  reencoded (inr q) u r = ok (record r { url = some (record u { raw_query = q }) })

  abbrev pub based : String ⊎ Url → String → Outgoing → Result Outgoing
  based (inl e) base r = err (external e)
  based (inr u) base r =
      if is_empty u.scheme
      then err (external ("autorest: No scheme detected in URL " ++ base))
      else if is_empty u.raw_query
      then ok (record r { url = some u })
      else reencoded (lib.reencode u.raw_query) u r

  unfoldable pub with_base_url : String → PrepareDecorator Outgoing
  with_base_url base p r = then_prepared (p r) (based (lib.url_parse base) base)

  unfoldable pub with_custom_base_url : String → Mapped Value → PrepareDecorator Outgoing
  unfolding with_base_url
  with_custom_base_url base parameters =
      with_base_url (substitute (ensure_value_strings parameters) base)

  unfoldable pub parse_url : Url → String → String ⊎ Url
  parse_url u path =
      let p = trim_slashes (lib.url_string u) in
      lib.url_parse (p ++ (if has_prefix path "/" then path else "/" ++ path))

  abbrev pub set_url : String ⊎ Url → Preparer Outgoing
  set_url (inl e) r = err (external e)
  set_url (inr u) r = ok (record r { url = some u })

  -- the URL extended by a path
  abbrev pub at_path : String → Option Url → String → Preparer Outgoing
  at_path method none path r = err (new_error "autorest" method "Invoked with a nil URL" [])
  at_path method (some u) path r = set_url (parse_url u path) r

  unfoldable pub with_path : String → PrepareDecorator Outgoing
  with_path path p r = then_prepared (p r) (λ r'. at_path "WithPath" r'.url path r')

  -- Templates: the variable `path` is set to the path with its parameters, which it keeps for the
  -- next use; it is the second component.
  abbrev pub path_at :
      String → Mapped String → String → Outgoing → Option Url → Result Outgoing × String
  path_at method parameters path r none = (at_path method none path r, path)
  path_at method parameters path r (some u) =
      let path' = substitute parameters path in (at_path method (some u) path' r, path')

  abbrev pub path_used :
      String → Mapped String → String → Result Outgoing → Result Outgoing × String
  path_used method parameters path (ok r) = path_at method parameters path r r.url
  path_used method parameters path (err e) = (err e, path)
  path_used method parameters path panic = (panic, path)

  unfoldable pub use_path_parameters :
      Mapped Value → String → Preparer Outgoing → Outgoing → Result Outgoing × String
  use_path_parameters parameters path p r =
      path_used "WithPathParameters" (ensure_value_strings parameters) path (p r)

  unfoldable pub with_path_parameters : String → Mapped Value → PrepareDecorator Outgoing
  unfolding use_path_parameters
  with_path_parameters path parameters p r = (use_path_parameters parameters path p r).0

  unfoldable pub use_escaped_path_parameters :
      (String → String)
      → Mapped Value
      → String
      → Preparer Outgoing
      → Outgoing
      → Result Outgoing × String
  use_escaped_path_parameters escape parameters path p r =
      path_used "WithEscapedPathParameters"
        (escape_value_strings escape (ensure_value_strings parameters)) path (p r)

  unfoldable pub with_escaped_path_parameters :
      (String → String) → String → Mapped Value → PrepareDecorator Outgoing
  unfolding use_escaped_path_parameters
  with_escaped_path_parameters escape path parameters p r =
      (use_escaped_path_parameters escape parameters path p r).0
