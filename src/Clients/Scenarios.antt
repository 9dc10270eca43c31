-- ===== src/Clients/Scenarios.antt =====
-- Runs of clients and authorizers.
use go_autorest.Prelude.{
  ℕ, String, ◌≡◌, ◌↔◌, refl, none, some, [], ◌∷◌, ◌⊎◌, inr, str_eq, if◌then◌else◌,
}
use go_autorest.Errors.{external}
use go_autorest.Result.{ok}
use go_autorest.Sender.{reply}
use go_autorest.Senders.{replied}
use go_autorest.SharedKey.Sorting.{has_prefix}
use go_autorest.Preparers.{prepare, create_preparer, decorate_preparer}
use go_autorest.Preparers.Text.{contains, split_on, trim_left, trim_right}
use go_autorest.Preparers.Outgoing.{
  Outgoing, empty_request, with_nothing, with_user_agent, with_header,
}
use go_autorest.Clients.Client.{Client, Sending, do_client}
use go_autorest.Clients.Authorizers.{
  sas_authorizer, with_token, new_bearer_challenge, challenged, challenge_panics, take_pair,
  take_pairs,
}
use go_autorest.Clients.Signed.{IsSigned, sas_twice}
use go_autorest.Clients.Challenged.{Breaks, challenge-Breaks}

abbrev request : Outgoing
request = record empty_request {
  url = some (record { scheme = "https"; raw_query = "a=1"; rest = "example.com" });
}

-- a sender that returns nothing
abbrev silent : Sending ℕ
silent r w = (replied (reply none none), w)

abbrev client : Client ℕ
client = record {
  authorizer = some (sas_authorizer "sig=x");
  sender = none;
  request_inspector = none;
  response_inspector = none;
  user_agent = "go";
  send_decorators = none;
}

silenced :
    do_client (λ k. k) silent client request 0
    ≡ (replied (reply none (some (external "autorest: received nil response and error"))), 0)
unfolding do_client prepare create_preparer decorate_preparer with_user_agent with_header
    with_nothing sas_authorizer with_token contains has_prefix
silenced = refl

sas_twice_example :
    IsSigned "sig=x" (ok request) (sas_authorizer "sig=x" (λ r. ok r) request)
    × (sas_authorizer "sig=x" (sas_authorizer "sig=x" (λ r. ok r)) request
        ≡ sas_authorizer "sig=x" (λ r. ok r) request)
sas_twice_example = sas_twice "sig=x" (λ r. ok r) request refl

-- the path of a tenant's URL; other texts have none
abbrev tenant_path : String → String ⊎ String
tenant_path u = if str_eq u "https://login/tenant" then inr "/tenant" else inr ""

abbrev header : String
header = "Bearer authorization=\"https://login/tenant\", resource=\"r\""

challenge :
    new_bearer_challenge
      (λ s. if str_eq s " resource=\"r\"" then "resource=\"r\"" else s)
      tenant_path
      header
    ≡ challenged (("resource", "r") ∷ ("tenantID", "tenant") ∷ [])
unfolding new_bearer_challenge take_pairs take_pair split_on trim_left trim_right
challenge = refl

-- a header that is the word alone
panics_on_word : new_bearer_challenge (λ s. s) tenant_path "Bearer" ≡ challenge_panics
unfolding new_bearer_challenge
panics_on_word = refl

-- a header whose URI has no path
abbrev no_path : String
no_path = "Bearer resource=\"r\",authorization=\"https://login\""

challenge-Breaks_example :
    (new_bearer_challenge (λ s. s) tenant_path no_path ≡ challenge_panics)
    ↔ Breaks (λ s. s) tenant_path no_path
challenge-Breaks_example = challenge-Breaks (λ s. s) tenant_path no_path

panics_on_path : new_bearer_challenge (λ s. s) tenant_path no_path ≡ challenge_panics
unfolding new_bearer_challenge take_pairs take_pair split_on trim_left trim_right
panics_on_path = refl
