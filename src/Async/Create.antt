-- ===== src/Async/Create.antt =====
-- autorest/azure/async.go: `createPollingTracker`.
use go_autorest.Prelude.{String, Option, none, some, [], ◌∷◌, str_eq, if◌then◌else◌}
use go_autorest.Http.{Response}
use go_autorest.Errors.{Error, new_error}
use go_autorest.Platform.{Platform}
use go_autorest.Result.{Result, ok, err, panic, Exec, ◌>>◌}
use go_autorest.Async.Tracker.{Base, base_of, Verb, delete, patch, post, put}
use go_autorest.Async.State.{initialize_state}
use go_autorest.Async.Verbs.{update_polling_method}

-- `switch strings.ToUpper(method)`
unfoldable pub verb_of : String → Option Verb
verb_of m =
    if str_eq m "DELETE"
    then some delete
    else if str_eq m "PATCH"
    then some patch
    else if str_eq m "POST"
    then some post
    else if str_eq m "PUT"
    then some put
    else none

pub record Tracker : Type 0 where
  pub verb : Verb
  pub base : Base

-- What `createPollingTracker` returns: a tracker, or nil, with an error or none.
pub data Created : Type 0 where
  unsupported : Error → Created
  created : Tracker → Option Error → Created
  panicked : Created

abbrev pub created_with : Verb → Result (Unit {0}) × Base → Created
created_with verb (ok _, s) = created (record { verb = verb; base = s }) none
created_with verb (err e, s) = created (record { verb = verb; base = s }) (some e)
created_with verb (panic, s) = panicked

module _ (p : Platform) where
  unfoldable pub start : Verb → Exec Base Unit
  start verb = do initialize_state p; update_polling_method p verb

  -- the cases of the `switch`, and what follows it
  unfoldable pub create_as : Option Verb → Response → Created
  create_as none resp = unsupported (
      new_error "azure" "createPollingTracker" "unsupported HTTP method %s"
        (resp.request_method ∷ []))
  create_as (some verb) resp = created_with verb (start verb (base_of resp))

  unfoldable pub create_polling_tracker : Response → Created
  unfolding verb_of
  create_polling_tracker resp = create_as (verb_of (p.to_upper resp.request_method)) resp
