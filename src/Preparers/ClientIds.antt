-- ===== src/Preparers/ClientIds.antt =====
-- autorest/azure/azure.go: the decorators that send a client's request id.
use go_autorest.Prelude.{String, Bool, true, [], ◌∷◌, if◌then◌else◌}
use go_autorest.Preparers.{PrepareDecorator, create_preparer}
use go_autorest.Preparers.Outgoing.{Outgoing, then_prepared, with_header}

module _ (canonical : String → String) where
  unfoldable pub with_client_id : String → PrepareDecorator Outgoing
  unfolding with_header
  with_client_id uuid = with_header canonical "x-ms-client-request-id" uuid

  unfoldable pub with_return_client_id : Bool → PrepareDecorator Outgoing
  unfolding with_header
  with_return_client_id b =
      with_header canonical "x-ms-return-client-request-id" (if b then "true" else "false")

  -- a preparer of its own, after the one that is decorated
  unfoldable pub with_returning_client_id : String → PrepareDecorator Outgoing
  unfolding with_client_id with_return_client_id
  with_returning_client_id uuid p r =
      then_prepared (p r) (create_preparer (with_client_id uuid ∷ with_return_client_id true ∷ []))
